-- ===== src/Config.antt =====
-- config/config.go and config/errors.go: the configuration of an instance, its validation and its
-- defaults, and how it is loaded and reloaded.
--
-- The libraries that the code calls are the record `Libraries`: Redis URL parsing, TOML decoding,
-- HTTP and the file system, the environment, and Go's duration parser. The options of a Redis client
-- are an abstract type. A slice that may be nil is an optional list. Validation changes the
-- capabilities in place and `Load` drops them on an error: here it returns the changed value or an
-- error.

pub mod Load
pub mod Params
pub mod Validated
pub mod Read
pub mod Accepted
pub mod Defaults
pub mod Messages
pub mod Printable
pub mod Reported
pub mod Pulled
mod Runs
use lod.Prelude.{
  ℕ, zero, suc, ◌+◌, List, [], ◌∷◌, ◌++◌, Bool, true, false, not, ◌&&◌, ◌||◌, leb, if◌then◌else◌,
  any, all, Result, ok, err, panic, ◌>>=◌, ◌>>◌, Option, none, some, map,
}
use lod.Prelude.Int.{ℤ, pos, ltb_ℤ, leb_ℤ, eqb_ℤ}
use lod.Prelude.Text.{Text, codes, text_eq}
use lod.Prelude.Strings.{contains}

pub record Header : Type 0 where
  pub name : Text
  pub value : Text

pub record Param : Type 0 where
  pub name : Text
  pub default : Text

pub record Cache (Opts : Type 0) : Type 0 where
  pub mem_enabled : Bool
  pub mem_cap : ℤ
  pub mem_ttl : Text
  pub mem_ttl_duration : ℤ
  pub redis_enabled : Bool
  pub redis_ttl : Text
  pub redis_ttl_duration : ℤ
  pub redis_url : Text
  pub redis_tls : Bool
  pub redis_opts : Option Opts
  pub key_template : Text

pub record Proxy (Opts : Type 0) : Type 0 where
  pub name : Text
  pub tile_url : Text
  pub has_endpoint_param : Bool
  pub cors_origins : Text
  pub pull_headers : Option (List Text)
  pub delete_headers : List Text
  pub add_headers : List Header
  pub access_token : Text
  pub num_workers : ℤ
  pub params : List Param
  pub cache : Cache Opts

pub record Instance : Type 0 where
  pub port : ℤ
  pub environment : Text
  pub admin_disabled : Bool
  pub admin_token : Text
  pub metrics_enabled : Bool

pub record Capabilities (Opts : Type 0) : Type 0 where
  pub version : Text
  pub settings : Instance
  pub proxies : List (Proxy Opts)

-- The error types of the package, and the errors that `Load` passes on from the libraries.
pub data ConfigError : Type 0 where
  get_http : Text → ℤ → Option Text → ConfigError
  invalid_port : ℤ → ConfigError
  proxy_no_name : ℕ → ConfigError
  proxy_invalid_name : ℕ → Text → ConfigError
  missing_tile_url : Text → ConfigError
  missing_tile_url_template : Text → Text → Text → ConfigError
  no_cache_enabled : Text → ConfigError
  invalid_mem_cap : Text → ConfigError
  invalid_mem_ttl : Text → Text → ConfigError
  invalid_redis_ttl : Text → Text → ConfigError
  invalid_redis_url : Text → Text → Text → ConfigError
  missing_cache_template : Text → Text → Text → ConfigError
  param_no_name : Text → ℕ → ConfigError
  param_name_duplicate : Text → Param → ConfigError
  external : Text → ConfigError

-- `http.Get`: an error, or the status and what reading the body gives.
pub record Response : Type 0 where
  pub status : ℤ
  pub body : Result Text Text

pub record Libraries (Opts : Type 0) : Type 0 where
  pub parse_duration : Text → Option ℤ
  pub parse_redis_url : Text → Result Text Opts
  pub parse_url : Text → Option (Text × Text)
  pub http_get : Text → Result Text Response
  pub read_file : Text → Result Text Text
  pub expand_env : Text → Text
  pub decode_toml : Text → Result Text (Capabilities Opts)

-- `^[a-zA-Z0-9_-]+$`
unfoldable pub is_name_char : ℕ → Bool
is_name_char c =
    leb b'a' c && leb c b'z'
    || leb b'A' c && leb c b'Z'
    || leb b'0' c && leb c b'9'
    || text_eq (c ∷ []) (codes "_")
    || text_eq (c ∷ []) (codes "-")

unfoldable pub matches_name : Text → Bool
matches_name [] = false
matches_name (c ∷ s) = all is_name_char (c ∷ s)

-- An early return with an error.
abbrev pub ensure : Bool → ConfigError → Result ConfigError (Unit {0})
ensure true e = ok tt
ensure false e = err e

unfoldable pub reserved_names : List Text
reserved_names = codes "e" ∷ codes "z" ∷ codes "x" ∷ codes "y" ∷ []

-- The loop of `validateParams`, at the parameter with the index `i`.
unfoldable pub validate_params_from :
    Text → ℕ → List Text → List Param → Result ConfigError (Unit {0})
validate_params_from proxy_name i used [] = ok tt
validate_params_from proxy_name i used (param ∷ params) =
    if text_eq param.name []
    then err (param_no_name proxy_name (i + 1))
    else if any (λ name. text_eq name param.name) used
    then err (param_name_duplicate proxy_name param)
    else validate_params_from proxy_name (i + 1) (used ++ param.name ∷ []) params

module _ {Opts : Type 0} where
  unfoldable pub validate_params : Proxy Opts → Result ConfigError (Unit {0})
  validate_params proxy = validate_params_from proxy.name 0 reserved_names proxy.params

  -- The assignments of `validateExternalCache`.
  abbrev pub set_redis : Proxy Opts → Opts → ℤ → Proxy Opts
  set_redis proxy opts ttl = record proxy {
    cache = record (proxy.cache) { redis_opts = some opts; redis_ttl_duration = ttl };
  }

  module _ (lib : Libraries Opts) where
    unfoldable pub validate_internal_cache : Proxy Opts → Result ConfigError (Proxy Opts)
    validate_internal_cache proxy =
        if not proxy.cache.mem_enabled
        then ok proxy
        else if ltb_ℤ proxy.cache.mem_cap (pos 1)
        then err (invalid_mem_cap proxy.name)
        else elim (lib.parse_duration proxy.cache.mem_ttl) [
          | none ↦ err (invalid_mem_ttl proxy.name proxy.cache.mem_ttl)
          | some ttl ↦
              if ltb_ℤ ttl (pos 0)
              then err (invalid_mem_ttl proxy.name proxy.cache.mem_ttl)
              else ok (record proxy { cache = record (proxy.cache) { mem_ttl_duration = ttl } })
        ]

    -- What `redis_ttl` says: 0, for no expiry, if it is empty.
    unfoldable pub redis_duration : Proxy Opts → Result ConfigError ℤ
    redis_duration proxy =
        if text_eq proxy.cache.redis_ttl []
        then ok (pos 0)
        else elim (lib.parse_duration proxy.cache.redis_ttl) [
          | none ↦ err (invalid_redis_ttl proxy.name proxy.cache.redis_ttl)
          | some ttl ↦
              if ltb_ℤ ttl (pos 0)
              then err (invalid_redis_ttl proxy.name proxy.cache.redis_ttl)
              else ok ttl
        ]

    unfoldable pub validate_external_cache : Proxy Opts → Result ConfigError (Proxy Opts)
    validate_external_cache proxy =
        if not proxy.cache.redis_enabled
        then ok proxy
        else elim (lib.parse_redis_url proxy.cache.redis_url) [
          | err e ↦ err (invalid_redis_url proxy.name proxy.cache.redis_url e)
          | panic ↦ panic
          | ok opts ↦ do ttl ← redis_duration proxy; ok (set_redis proxy opts ttl)
        ]

    -- The checks on the key template, which come last.
    unfoldable pub validate_key_template : Proxy Opts → Result ConfigError (Proxy Opts)
    validate_key_template proxy = do
      let template = proxy.cache.key_template
      ensure (contains template (codes "{z}"))
          (missing_cache_template proxy.name template (codes "{z}"))
      ensure (contains template (codes "{x}"))
          (missing_cache_template proxy.name template (codes "{x}"))
      ensure (contains template (codes "{y}"))
          (missing_cache_template proxy.name template (codes "{y}"))
      ok proxy

    unfoldable pub validate_cache : Proxy Opts → Result ConfigError (Proxy Opts)
    validate_cache proxy = do
      ensure (proxy.cache.mem_enabled || proxy.cache.redis_enabled) (no_cache_enabled proxy.name)
      proxy' ← validate_internal_cache proxy
      proxy'' ← validate_external_cache proxy'
      validate_key_template proxy''

    -- The checks on the name and the tile URL, which come first.
    unfoldable pub validate_url : ℕ → Proxy Opts → Result ConfigError (Proxy Opts)
    validate_url num proxy = do
      ensure (not (text_eq proxy.name [])) (proxy_no_name (num + 1))
      ensure (matches_name proxy.name) (proxy_invalid_name (num + 1) proxy.name)
      ensure (not (text_eq proxy.tile_url [])) (missing_tile_url proxy.name)
      let url = proxy.tile_url
      ensure (contains url (codes "{z}")) (missing_tile_url_template proxy.name url (codes "{z}"))
      ensure (contains url (codes "{x}")) (missing_tile_url_template proxy.name url (codes "{x}"))
      ensure (contains url (codes "{y}")) (missing_tile_url_template proxy.name url (codes "{y}"))
      ok (record proxy { has_endpoint_param = contains url (codes "{e}") })

    -- `validateParams`, which changes nothing.
    unfoldable pub keep_params : Proxy Opts → Result ConfigError (Proxy Opts)
    keep_params proxy = do validate_params proxy; ok proxy

    unfoldable pub validate_proxy : ℕ → Proxy Opts → Result ConfigError (Proxy Opts)
    validate_proxy num proxy = do
      proxy' ← validate_url num proxy
      proxy'' ← validate_cache proxy'
      keep_params proxy''

    unfoldable pub validate_proxies : ℕ → List (Proxy Opts) → Result ConfigError (List (Proxy Opts))
    validate_proxies num [] = ok []
    validate_proxies num (proxy ∷ proxies) = do
      proxy' ← validate_proxy num proxy
      proxies' ← validate_proxies (num + 1) proxies
      ok (proxy' ∷ proxies')

    unfoldable pub validate_capabilities :
        Capabilities Opts → Result ConfigError (Capabilities Opts)
    validate_capabilities c = do
      ensure (not (ltb_ℤ c.settings.port (pos 0) || ltb_ℤ (pos 65535) c.settings.port))
          (invalid_port c.settings.port)
      proxies ← validate_proxies 0 c.proxies
      ok (record c { proxies = proxies })
