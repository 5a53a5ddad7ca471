-- ===== src/Config/Load.antt =====
-- config/config.go: `setDefaults`, `registerHeader`, `readHttp`, `Load` and the accessors of the
-- global configuration.
use lod.Prelude.{
  List, [], ◌∷◌, ◌++◌, Bool, true, false, if◌then◌else◌, any, Result, ok, err, panic, ◌>>=◌, Option,
  none, some, map, ◌&&◌, not,
}
use lod.Prelude.Int.{ℤ, pos, leb_ℤ, eqb_ℤ}
use lod.Prelude.Text.{Text, codes, text_eq}
use lod.Prelude.Strings.{itoa}
use lod.Environment.{is_url}
use lod.Config.{
  Cache, Proxy, Capabilities, ConfigError, get_http, external, Libraries, validate_capabilities,
}

unfoldable pub default_port : ℤ
default_port = pos 3100

unfoldable pub default_num_workers : ℤ
default_num_workers = pos 8

-- The names in fiber.HeaderContentType and fiber.HeaderContentEncoding.
abbrev pub content_type : Text
content_type = codes "Content-Type"

abbrev pub content_encoding : Text
content_encoding = codes "Content-Encoding"

-- The entries of a slice that may be nil.
abbrev pub entries {ℓ} : {A : Type ℓ} → Option (List A) → List A
entries none = []
entries (some xs) = xs

module _ {Opts : Type 0} where
  unfoldable pub default_cache : Cache Opts
  default_cache = record {
    mem_enabled = false;
    mem_cap = pos 1000;
    mem_ttl = codes "24h";
    mem_ttl_duration = pos 0;
    redis_enabled = false;
    redis_ttl = [];
    redis_ttl_duration = pos 0;
    redis_url = [];
    redis_tls = false;
    redis_opts = none;
    key_template = codes "{z}/{x}/{y}";
  }

  abbrev is_nil : Option Opts → Bool
  is_nil none = true
  is_nil (some o) = false

  -- `cache == zeroCache`: every field has its zero value.
  unfoldable pub is_zero_cache : Cache Opts → Bool
  is_zero_cache c =
      not c.mem_enabled
      && eqb_ℤ c.mem_cap (pos 0)
      && text_eq c.mem_ttl []
      && eqb_ℤ c.mem_ttl_duration (pos 0)
      && not c.redis_enabled
      && text_eq c.redis_ttl []
      && eqb_ℤ c.redis_ttl_duration (pos 0)
      && text_eq c.redis_url []
      && not c.redis_tls
      && is_nil c.redis_opts
      && text_eq c.key_template []

  unfoldable pub register_header : Text → Proxy Opts → Proxy Opts
  register_header header p =
      if any (λ key. text_eq key header) (entries p.pull_headers)
      then p
      else record p { pull_headers = some (entries p.pull_headers ++ header ∷ []) }

  unfoldable pub default_cache_of : Cache Opts → Cache Opts
  default_cache_of c =
      let c' = if is_zero_cache c then default_cache else c in
      if text_eq c'.key_template []
      then record c' { key_template = default_cache.key_template }
      else c'

  -- One round of the loop over the proxies, up to the two calls of `registerHeader`.
  abbrev pub fill_fields : Proxy Opts → Proxy Opts
  fill_fields p = record p {
    cache = default_cache_of p.cache;
    pull_headers = some (entries p.pull_headers);
    num_workers = if leb_ℤ p.num_workers (pos 0) then default_num_workers else p.num_workers;
  }

  unfoldable pub set_proxy_defaults : Proxy Opts → Proxy Opts
  set_proxy_defaults p =
      register_header content_encoding (register_header content_type (fill_fields p))

  unfoldable pub set_defaults : Capabilities Opts → Capabilities Opts
  set_defaults cap =
      let port = if eqb_ℤ cap.settings.port (pos 0) then default_port else cap.settings.port in
      record cap {
        settings = record (cap.settings) { port = port };
        proxies = map set_proxy_defaults cap.proxies;
      }

  module _ (lib : Libraries Opts) where
    unfoldable pub read_http : Text → Result ConfigError Text
    read_http file = elim (lib.http_get file) [
      | err e ↦ err (get_http file (pos 0) (some e))
      | panic ↦ panic
      | ok resp ↦
          if not (eqb_ℤ resp.status (pos 200))
          then err (get_http file resp.status none)
          else elim resp.body [
            | err e ↦ err (get_http file (pos 0) (some e))
            | panic ↦ panic
            | ok config_data ↦ ok config_data
          ]
    ]

    -- The error of a library, passed on as it is.
    abbrev pub pass_on {ℓ} : {A : Type ℓ} → Result Text A → Result ConfigError A
    pass_on (ok a) = ok a
    pass_on (err e) = err (external e)
    pass_on panic = panic

    unfoldable pub read_config : Text → Result ConfigError Text
    read_config file =
        if is_url lib.parse_url file then read_http file else pass_on (lib.read_file file)

    -- `Load` behind the decoding: the instance's own values, validation and defaults.
    unfoldable pub complete :
        Text → Text → Capabilities Opts → Result ConfigError (Capabilities Opts)
    complete environment version decoded = do
      let named = record decoded {
        settings = record (decoded.settings) { environment = environment };
        version = version;
      }
      validated ← validate_capabilities lib named
      ok (set_defaults validated)

    -- `Load` up to the assignment of the global: the environment and the version of this instance,
    -- and the file to read, are its arguments.
    unfoldable pub load_new : Text → Text → Text → Result ConfigError (Capabilities Opts)
    load_new environment version file = do
      config_data ← read_config file
      decoded ← pass_on (lib.decode_toml (lib.expand_env config_data))
      complete environment version decoded

    -- `Load` on the global `capabilities`: its new value, and the error if there is one.
    unfoldable pub load :
        Text → Text → Text → Capabilities Opts → Capabilities Opts × Result ConfigError (Unit {0})
    load environment version file capabilities = elim (load_new environment version file) [
      | ok new ↦ (new, ok tt)
      | err e ↦ (capabilities, err e)
      | panic ↦ (capabilities, panic)
    ]

  unfoldable pub get_port : Capabilities Opts → ℤ
  get_port capabilities = capabilities.settings.port

  unfoldable pub get_listen_port : Capabilities Opts → Text
  get_listen_port capabilities = codes ":" ++ itoa (get_port capabilities)
