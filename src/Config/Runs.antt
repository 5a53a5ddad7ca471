-- ===== src/Config/Runs.antt =====
-- A concrete configuration and concrete libraries, and the theorems on configurations at concrete
-- inputs. The options of a Redis client are the URL, and durations are written "1h" and "-1s".
use lod.Prelude.{
  ◌↔◌, [], ◌∷◌, true, false, if◌then◌else◌, ok, err, panic, Option, none, some, ◌≡◌, ◌≢◌, ◌⊎◌, inl,
  refl, arith,
}
use lod.Prelude.Int.{ℤ, pos, negsuc}
use lod.Prelude.Text.{Text, codes, text_eq, ne_of_text_eq}
use lod.Prelude.Strings.{contains, has_prefix, digits_loop, decimal, itoa}
use lod.Environment.{is_url}
use lod.Config.{
  Response, Cache, Proxy, Capabilities, invalid_port, param_name_duplicate, get_http, Libraries,
  is_name_char, matches_name, reserved_names, validate_params_from, validate_params,
  validate_internal_cache, redis_duration, validate_external_cache, validate_key_template,
  validate_cache, validate_url, keep_params, validate_proxy, validate_proxies,
  validate_capabilities,
}
use lod.Config.Load.{
  load_new, default_cache, default_cache_of, set_defaults, default_port, read_http, read_config,
  load, get_port, get_listen_port, content_type,
}
use lod.Config.Params.{validate_params_iff}
use lod.Config.Validated.{IsValidCache, IsValidProxy, IsValid}
use lod.Config.Accepted.{validate_capabilities_iff}
use lod.Config.Read.{IsReadOf}
use lod.Config.Messages.{message, pull_from, do_pull_headers}
use lod.Config.Reported.{message-load}
use lod.Prelude.Dict.{insert}
use lod.Config.Defaults.{IsServed, load_cases, default_cache_of-eq}

abbrev duration : Text → Option ℤ
duration s =
    if text_eq s (codes "1h")
    then some (pos 3600000000000)
    else if text_eq s (codes "-1s")
    then some (negsuc 999999999)
    else none

-- A cache that is kept in memory and in Redis, before and after the parsing of its values.
abbrev parsed_cache : ℤ → Option Text → Cache Text
parsed_cache ttl opts = record {
  mem_enabled = true;
  mem_cap = pos 1000;
  mem_ttl = codes "1h";
  mem_ttl_duration = ttl;
  redis_enabled = true;
  redis_ttl = [];
  redis_ttl_duration = pos 0;
  redis_url = codes "redis://r";
  redis_tls = false;
  redis_opts = opts;
  key_template = codes "{z}/{x}/{y}";
}

abbrev proxy : Cache Text → Proxy Text
proxy cache = record {
  name = codes "osm";
  tile_url = codes "https://t/{z}/{x}/{y}.pbf";
  has_endpoint_param = false;
  cors_origins = [];
  pull_headers = none;
  delete_headers = [];
  add_headers = record { name = codes "X-By"; value = codes "lod" } ∷ [];
  access_token = [];
  num_workers = pos 0;
  params = record { name = codes "key"; default = codes "none" } ∷ [];
  cache = cache;
}

abbrev capabilities : ℤ → Cache Text → Capabilities Text
capabilities port cache = record {
  version = [];
  settings = record {
    port = port;
    environment = [];
    admin_disabled = false;
    admin_token = codes "t";
    metrics_enabled = true;
  };
  proxies = proxy cache ∷ [];
}

abbrev raw : Capabilities Text
raw = capabilities (pos 0) (parsed_cache (pos 0) none)

abbrev valid : Capabilities Text
valid = capabilities (pos 0) (parsed_cache (pos 3600000000000) (some (codes "redis://r")))

-- The file "lod.toml" is the configuration above; the web has a page at "http://x" that is missing.
abbrev libraries : Libraries Text
libraries = record {
  parse_duration = duration;
  parse_redis_url =
      λ url. if has_prefix url (codes "redis://") then ok url else err (codes "scheme");
  parse_url =
      λ file. if has_prefix file (codes "http://") then some (codes "http", codes "h") else none;
  http_get = λ file. ok (record { status = pos 404; body = ok [] });
  read_file =
      λ file. if text_eq file (codes "lod.toml") then ok file else err (codes "no such file");
  expand_env = λ s. s;
  decode_toml = λ s. ok raw;
}

texts : Unit {0}
unfolding text_eq has_prefix contains is_name_char matches_name digits_loop decimal itoa
texts = tt

validation : Unit {0}
unfolding texts reserved_names validate_params_from validate_params validate_internal_cache
    redis_duration validate_external_cache validate_key_template validate_cache validate_url
    keep_params validate_proxy validate_proxies validate_capabilities
validation = tt

port_run :
    validate_capabilities libraries (capabilities (pos 65536) (parsed_cache (pos 0) none))
    ≡ err (invalid_port (pos 65536))
unfolding validation
port_run = refl

duplicate_run :
    validate_params
      (record (proxy default_cache) { params = record { name = codes "z"; default = [] } ∷ [] })
    ≡ err (param_name_duplicate (codes "osm") (record { name = codes "z"; default = [] }))
unfolding validation
duplicate_run = refl

http_run :
    read_config libraries (codes "http://x") ≡ err (get_http (codes "http://x") (pos 404) none)
unfolding texts read_config read_http is_url
http_run = refl

listen_run : get_listen_port (set_defaults valid) ≡ codes ":3100"
unfolding texts get_listen_port get_port set_defaults default_port
listen_run = refl

valid_cache : IsValidCache libraries (parsed_cache (pos 3600000000000) (some (codes "redis://r")))
unfolding texts
valid_cache = record {
  enabled = inl refl;
  mem = λ on. record { cap = omega arith; parsed = refl; expires = omega arith };
  redis = λ on. record {
    opts = codes "redis://r";
    parsed_url = refl;
    stored = refl;
    nonnegative = omega arith;
    parsed_ttl = inl (refl, refl);
  };
  key = record { z = refl; x = refl; y = refl };
}

valid_proxy :
    IsValidProxy libraries (proxy (parsed_cache (pos 3600000000000) (some (codes "redis://r"))))
unfolding validation
valid_proxy = record {
  name = refl;
  url = record { z = refl; x = refl; y = refl };
  endpoint = refl;
  cached = valid_cache;
  named = (ne_of_text_eq _ _ refl, tt);
  distinct = ((validate_params_iff (proxy default_cache)).0 refl).1;
}

valid-IsValid : IsValid libraries valid
valid-IsValid = record {
  port_low = omega arith;
  port_high = omega arith;
  proxies = (valid_proxy, tt);
}

validate_capabilities_iff_example :
    (validate_capabilities libraries raw ≡ ok valid)
    ↔ (IsValid libraries valid × IsReadOf raw valid)
validate_capabilities_iff_example = validate_capabilities_iff libraries raw valid

default_cache_of-eq_example :
    default_cache_of (parsed_cache (pos 3600000000000) (some (codes "redis://r")))
    ≡ parsed_cache (pos 3600000000000) (some (codes "redis://r"))
default_cache_of-eq_example =
    default_cache_of-eq libraries (parsed_cache (pos 3600000000000) (some (codes "redis://r")))
      valid_cache

load_cases_example :
    (((load libraries (codes "prod") (codes "1.0") (codes "lod.toml") raw).1 ≡ ok tt)
      × IsServed libraries (load libraries (codes "prod") (codes "1.0") (codes "lod.toml") raw).0)
    ⊎ (((load libraries (codes "prod") (codes "1.0") (codes "lod.toml") raw).1 ≢ ok tt)
        × ((load libraries (codes "prod") (codes "1.0") (codes "lod.toml") raw).0 ≡ raw))
load_cases_example = load_cases libraries (codes "prod") (codes "1.0") (codes "lod.toml") raw

message_run :
    message (invalid_port (negsuc 0))
    ≡ ok (codes "config:instance invalid port '-1', valid ports are 1-65535")
unfolding texts message
message_run = refl

pull_run :
    do_pull_headers
      (record (proxy default_cache) { pull_headers = some (content_type ∷ []) })
      (λ header. codes "image/png")
      []
    ≡ (content_type, codes "image/png") ∷ []
unfolding texts do_pull_headers pull_from insert
pull_run = refl

message-load_example : message (get_http (codes "http://x") (pos 404) none) ≢ panic
unfolding texts load load_new read_config read_http is_url
message-load_example =
    message-load libraries (codes "prod") (codes "1.0") (codes "http://x") raw
      (get_http (codes "http://x") (pos 404) none) missing refl
  where
    missing :
        (file : Text) (resp : Response) → libraries.http_get file ≡ ok resp → resp.status ≢ pos 0
    missing file resp e = λ zero_status. ground arith
