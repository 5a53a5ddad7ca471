-- ===== src/Handlers/Proxy/Flights/Laws.antt =====
-- What the laws of the flight group (www/handlers/proxy/proxy.go: `flightGroup`) say of any key.
use lod.Prelude.{ℕ, Bool-cases, none, some, ◌≡◌, ◌≢◌, ◌⊎◌, inl, inr, sym, subst, ◌∙◌}
use lod.Prelude.Text.{Text, text_eq, eq_of_text_eq, text_eq_iff}
use lod.Handlers.Proxy.Flights.{FlightGroup, FlightGroupLaws}

pub same_or_not : (k key : Text) → (k ≡ key) ⊎ (k ≢ key)
same_or_not k key = elim (Bool-cases (text_eq k key)) [
  | inl same ↦ inl (eq_of_text_eq k key same)
  | inr other ↦ inr (λ e. absurd (cc ((text_eq_iff k key).1 e)))
]

module _ {g : FlightGroup} (laws : FlightGroupLaws g) where
  pub begun :
      (key k : Text) (i j : ℕ) (calls : g.Calls)
      → g.under_way k (g.begin_call key i calls) ≡ some j
      → ((k ≡ key) × (j ≡ i)) ⊎ (g.under_way k calls ≡ some j)
  begun key k i j calls h = elim (same_or_not k key) [
    | inl same ↦ inl (same, same_call (rw same (laws.begins key i calls)))
    | inr other ↦ inr (sym (laws.begins_alone key k i calls other) ∙ h)
  ]
    where
      same_call : g.under_way k (g.begin_call key i calls) ≡ some i → j ≡ i
      same_call e = cc

  pub ended :
      (key k : Text) (i j : ℕ) (calls : g.Calls)
      → g.under_way k (g.end_call key i calls) ≡ some j
      → ((k ≢ key) ⊎ (j ≢ i)) × (g.under_way k calls ≡ some j)
  ended key k i j calls h = elim (same_or_not k key) [
    | inr other ↦ (inl other, sym (laws.ends_alone key k i calls other) ∙ h)
    | inl same ↦
        let (differs, old) =
          laws.ends key i j calls
            (subst (λ m. g.under_way m (g.end_call key i calls) ≡ some j) same h) in
        (inr differs, rw same old)
  ]

  pub kept :
      (key k : Text) (j : ℕ) (calls : g.Calls)
      → g.under_way k (g.forget key calls) ≡ some j
      → g.under_way k calls ≡ some j
  kept key k j calls h = elim (same_or_not k key) [
    | inr other ↦ sym (laws.forgotten_alone key k calls other) ∙ h
    | inl same ↦ absurd (gone (rw same (laws.forgotten key calls)))
  ]
    where
      gone : g.under_way k (g.forget key calls) ≡ none → ⊥
      gone e = cc
