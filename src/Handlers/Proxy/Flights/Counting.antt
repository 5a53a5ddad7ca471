-- ===== src/Handlers/Proxy/Flights/Counting.antt =====
-- The requests that are in the call for a key, counted (www/handlers/proxy/proxy.go).
use lod.Prelude.{
  ℕ, zero, suc, ◌+◌, ◌==◌, ==_iff, ◌≤◌, ◌<◌, List, [], ◌∷◌, Bool-cases, if◌then◌else◌, false,
  Result, Option, none, some, ◌≡◌, ◌≢◌, refl, inl, inr, arith,
}
use lod.Prelude.Text.{Text, text_eq, text_eq_refl, text_eq_iff}
use lod.Config.{Proxy}
use lod.Cache.Backends.{Stores}
use lod.Web.{Fiber, Reply}
use lod.Handlers.Proxy.Flights.{
  FlightGroup, Call, Stage, arrived, fetches, leaves, Server, put, Turn, runs, turn,
}

-- 1 for two equal keys.
abbrev pub one_if : Text → Text → ℕ
one_if k key = if text_eq k key then 1 else 0

pub one_if_same : (k key : Text) → k ≡ key → one_if k key ≡ 1
one_if_same k key e = rw (e, text_eq_refl key) refl

pub one_if_other : (k key : Text) → k ≢ key → one_if k key ≡ 0
one_if_other k key other = ground (arith, text_eq_iff k key)

-- 1 for a request in the call for the key.
abbrev pub in_call : {f : Fiber} → Text → Stage f → ℕ
in_call key (fetches tile_url k) = one_if k key
in_call key x = 0

-- The first `n` requests that are in the call for the key.
unfoldable pub calling : {f : Fiber} → Text → ℕ → (ℕ → Stage f) → ℕ
calling key zero stage = 0
calling key (suc n) stage = in_call key (stage n) + calling key n stage

pub calling_above :
    {f : Fiber} (key : Text) (n i : ℕ) (y : Stage f) (stage : ℕ → Stage f)
    → n ≤ i
    → calling key n (put i y stage) ≡ calling key n stage
unfolding calling
calling_above key zero i y stage high = refl
calling_above key (suc n) i y stage high =
    let other : (n == i) ≡ false = ground arith in
    rw (other, calling_above key n i y stage (omega arith)) refl

-- What the step of one request changes.
pub calling-put :
    {f : Fiber} (key : Text) (n i : ℕ) (y : Stage f) (stage : ℕ → Stage f)
    → i < n
    → calling key n (put i y stage) + in_call key (stage i) ≡ calling key n stage + in_call key y
unfolding calling
calling-put key zero i y stage low = absurd (omega arith)
calling-put key (suc n) i y stage low = elim (Bool-cases (n == i)) [
  | inl same ↦
      let e : n ≡ i = (==_iff n i).0 same in
      let above = calling_above key n i y stage (omega arith) in rw (same, above, e) (omega arith)
  | inr other ↦
      let differs : n ≢ i = (λ e. absurd (cc ((==_iff n i).1 e))) in
      let below = calling-put key n i y stage (omega arith) in rw other (omega arith)
]

pub calling-arrived : (f : Fiber) (key : Text) (m : ℕ) → calling {f = f} key m (λ i. arrived) ≡ 0
unfolding calling
calling-arrived f key zero = refl
calling-arrived f key (suc m) = omega (arith, calling-arrived f key m)

-- Whether a call is under way.
abbrev pub going : Option ℕ → ℕ
going none = 0
going (some j) = 1

pub going_most : (o : Option ℕ) → going o ≤ 1
going_most none = omega arith
going_most (some j) = omega arith

-- 1 for a request whose next turn forgets the key.
abbrev pub forgets : {f : Fiber} → Text → Stage f → ℕ
forgets key (leaves k status reply) = one_if k key
forgets key x = 0

abbrev pub turn_forgets :
    {Opts : Type 0} {s : Stores} {f : Fiber} {g : FlightGroup} → Text → Turn → Server Opts s f g → ℕ
turn_forgets key (runs i shared) st = forgets key (st.stage i)
turn_forgets key t st = 0

module _ {Opts : Type 0} {s : Stores} {f : Fiber} {g : FlightGroup} (sum256 : List ℕ → List ℕ)
    (with_query : Text → Text → Result Text Text) (proxies : ℕ → Proxy Opts) (calls : ℕ → Call)
    (blank : Reply f) (key : Text) where
  -- How often the turns forget the key.
  unfoldable pub forgotten_in : List Turn → Server Opts s f g → ℕ
  forgotten_in [] st = 0
  forgotten_in (t ∷ turns) st =
      turn_forgets key t st + forgotten_in turns (turn sum256 with_query proxies calls blank t st)
