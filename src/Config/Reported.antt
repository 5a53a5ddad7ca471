-- ===== src/Config/Reported.antt =====
-- Every error of `Load` (config/config.go) has a text.
use lod.Prelude.{
  ◌++◌, false, not, if_both, Result, ok, err, panic, ◌>>=◌, none, some, ◌≡◌, ◌≢◌, refl, arith,
}
use lod.Prelude.Int.{ℤ, pos, eqb_ℤ, eqb_ℤ→eq}
use lod.Prelude.Text.{Text, codes}
use lod.Prelude.Strings.{itoa}
use lod.Environment.{is_url}
use lod.Config.{Capabilities, ConfigError, get_http, Response, Libraries, validate_capabilities}
use lod.Config.Load.{read_http, read_config, pass_on, complete, load_new, load, set_defaults}
use lod.Config.Messages.{message}
use lod.Config.Printable.{
  IsPrintable, ok-IsPrintable, err-IsPrintable, panic-IsPrintable, >>=-IsPrintable,
  capabilities-IsPrintable,
}

eqb_false : (z : ℤ) → z ≢ pos 0 → eqb_ℤ z (pos 0) ≡ false
eqb_false z h = ground (arith, eqb_ℤ→eq z (pos 0))

module _ {Opts : Type 0} (lib : Libraries Opts) where
  pass_on-IsPrintable : {A : Type 0} (r : Result Text A) → IsPrintable (pass_on lib r)
  unfolding message
  pass_on-IsPrintable (ok a) = ok-IsPrintable a
  pass_on-IsPrintable (err e) = err-IsPrintable _ _ _ refl
  pass_on-IsPrintable panic = panic-IsPrintable _

  -- No response has the status 0.
  abbrev pub HasStatus : Type 0
  HasStatus = (file : Text) (resp : Response) → lib.http_get file ≡ ok resp → resp.status ≢ pos 0

  read_http-IsPrintable : (file : Text) → HasStatus → IsPrintable (read_http lib file)
  unfolding read_http message
  read_http-IsPrintable file h = go (lib.http_get file) refl
    where
      status_text :
          (status : ℤ) → status ≢ pos 0 → IsPrintable {A = Text} (err (get_http file status none))
      status_text status nonzero =
          err-IsPrintable _ (get_http file status none)
            (codes "config: failed to fetch config from URL '"
              ++ (file ++ (codes "', got status " ++ itoa status)))
            (rw (eqb_false status nonzero) refl)

      read :
          (r : Result Text Text)
          → IsPrintable (elim r [
            | err e ↦ err (get_http file (pos 0) (some e))
            | panic ↦ panic
            | ok config_data ↦ ok config_data
          ])
      read (err e) = err-IsPrintable _ _ _ refl
      read panic = panic-IsPrintable _
      read (ok d) = ok-IsPrintable d

      go : (r : Result Text Response) → lib.http_get file ≡ r → IsPrintable (read_http lib file)
      go (err x) e = rw (e, read_http) (err-IsPrintable _ _ _ refl)
      go panic e = rw (e, read_http) (panic-IsPrintable _)
      go (ok resp) e =
          rw (e, read_http)
            (if_both IsPrintable (not (eqb_ℤ resp.status (pos 200)))
              (status_text resp.status (h file resp e)) (read resp.body))

  read_config-IsPrintable : (file : Text) → HasStatus → IsPrintable (read_config lib file)
  unfolding read_config
  read_config-IsPrintable file h =
      if_both IsPrintable (is_url lib.parse_url file) (read_http-IsPrintable file h)
        (pass_on-IsPrintable (lib.read_file file))

  complete-IsPrintable :
      (environment version : Text) (c : Capabilities Opts)
      → IsPrintable (complete lib environment version c)
  unfolding complete
  complete-IsPrintable environment version c =
      let named : Capabilities Opts = record c {
        settings = record (c.settings) { environment = environment };
        version = version;
      } in
      >>=-IsPrintable (validate_capabilities lib named) (λ v. ok (set_defaults v))
        (capabilities-IsPrintable lib named) (λ v. ok-IsPrintable (set_defaults v))

  load_new-IsPrintable :
      (environment version file : Text)
      → HasStatus
      → IsPrintable (load_new lib environment version file)
  unfolding load_new
  load_new-IsPrintable environment version file h =
      >>=-IsPrintable (read_config lib file)
        (λ d. pass_on lib (lib.decode_toml (lib.expand_env d)) >>= complete lib environment version)
        (read_config-IsPrintable file h)
        (λ d.
          >>=-IsPrintable (pass_on lib (lib.decode_toml (lib.expand_env d)))
            (complete lib environment version)
            (pass_on-IsPrintable (lib.decode_toml (lib.expand_env d)))
            (complete-IsPrintable environment version))

  -- Where no response has the status 0, the `Error` method of every error that `Load` returns comes
  -- back with a text.
  pub message-load :
      (environment version file : Text) (capabilities : Capabilities Opts) (e : ConfigError)
      → HasStatus
      → (load lib environment version file capabilities).1 ≡ err e
      → message e ≢ panic
  unfolding load IsPrintable
  message-load environment version file capabilities e h failed =
      go (load_new lib environment version file) refl
        (load_new-IsPrintable environment version file h)
    where
      go :
          (r : Result ConfigError (Capabilities Opts))
          → load_new lib environment version file ≡ r
          → IsPrintable r
          → message e ≢ panic
      go (ok new) eq k = λ m. ground arith
      go (err x) eq k = λ m. k (ground arith)
      go panic eq k = λ m. ground arith
