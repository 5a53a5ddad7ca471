-- ===== src/Server/Runs.antt =====
-- The start of an instance, its routes and a reload at concrete inputs: the file has one proxy, which has a
-- token and is kept in memory.
use lod.Prelude.{
  if◌then◌else◌, arith, List, [], ◌∷◌, true, false, ok, err, none, some, ◌≡◌, ◌⊎◌, ◌↔◌, refl,
}
use lod.Prelude.Int.{pos, wrap, ltb_ℤ}
use lod.Prelude.Text.{Text, codes, text_eq}
use lod.Prelude.Dict.{lookup, insert}
use lod.Prelude.Strings.Parse.{atoi, parse_digits, parse_unsigned}
use lod.Prelude.Strings.{contains, has_prefix}
use lod.Config.{
  Proxy, Capabilities, Libraries, is_name_char, matches_name, reserved_names, validate_params_from,
  validate_params, validate_internal_cache, redis_duration, validate_external_cache,
  validate_key_template, validate_cache, validate_url, keep_params, validate_proxy,
  validate_proxies, validate_capabilities,
}
use lod.Config.Load.{
  load, load_new, read_config, complete, set_defaults, set_proxy_defaults, register_header,
  default_cache_of, is_zero_cache,
}
use lod.Cache.Registry.{
  Builders, Registry, get, is_configured, keep_configured, wipe_old_caches, open_internal,
  open_external, register, build_proxy, build_instance, init_from, init,
}
use lod.Cache.Registered.{Holds, init-Holds_iff}
use lod.Cache.Samples.{dictionaries, proxy}
use lod.Environment.{prod, dev, CommandLine, parse_flags, split, is_url}
use lod.Middleware.{bearer, Credentials, gen_auth, not_found_reply}
use lod.Middleware.Auth.{Presents, gen_auth_lem}
use lod.Handlers.Samples.{blank}
use lod.Handlers.Admin.Endpoints.{reload}
use lod.Handlers.Admin.Flushing.{IsServed}
use lod.Handlers.Admin.Reloading.{IsReloaded, reload-IsServed}
use lod.Cache.Clients.{entry_size, max_entry_mb, ClientLibraries, clients}
use lod.Cache.Clients.Boots.{Works}
use lod.Server.Boot.Starts.{main-starts}
use lod.Server.{Endpoint, wire_handlers}
use lod.Server.Boot.{serves, boot_caches, boot_config, boot_flags, main, main-serves}

abbrev osm : Proxy (Unit {0})
osm = record (proxy true false) { access_token = codes "k" }

abbrev raw : Capabilities (Unit {0})
raw = record {
  version = [];
  settings = record {
    port = pos 0;
    environment = [];
    admin_disabled = false;
    admin_token = codes "t";
    metrics_enabled = true;
  };
  proxies = osm ∷ [];
}

abbrev libraries : Libraries (Unit {0})
libraries = record {
  parse_duration = λ s. some (pos 3600);
  parse_redis_url = λ url. ok tt;
  parse_url = λ file. none;
  http_get = λ file. err (codes "no network");
  read_file = λ file. ok file;
  expand_env = λ s. s;
  decode_toml = λ s. ok raw;
}

abbrev builders : Builders (Unit {0}) dictionaries
builders = record {
  new_internal = λ p. ok [];
  new_external = λ p. ok [];
  no_internal = [];
  no_external = [];
}

abbrev order : Text → List (Text × Endpoint) → List (Text × Endpoint)
order name entries = entries

abbrev empty : Registry (Unit {0}) dictionaries
empty = record { caches = []; registered = [] }

abbrev line : CommandLine
line = record {
  file = codes "lod.toml";
  is_dev_flag = false;
  debug_flag_ptr = codes "primer";
  help = false;
}

abbrev loaded : Capabilities (Unit {0})
loaded = (load libraries (codes "prod") (codes "1.0") (codes "lod.toml") raw).0

starting : Unit {0}
unfolding text_eq has_prefix contains is_name_char matches_name reserved_names validate_params_from
    validate_params validate_internal_cache redis_duration validate_external_cache
    validate_key_template validate_cache validate_url keep_params validate_proxy validate_proxies
    validate_capabilities read_config complete load_new load set_defaults set_proxy_defaults
    register_header default_cache_of is_zero_cache lookup insert get keep_configured wipe_old_caches
    open_internal open_external register build_proxy build_instance init_from init split parse_flags
    boot_caches boot_config boot_flags main is_url
starting = tt

main_run :
    main libraries builders order (λ e. false) (codes "prod") (codes "1.0") line raw empty
    ≡ serves
        (codes "primer" ∷ [])
        loaded
        (init builders loaded.proxies empty).0
        (wire_handlers order loaded)
unfolding starting
main_run = refl

main-serves_example :
    (parse_flags line ≡ some (codes "primer" ∷ []))
    × (load libraries (codes "prod") (codes "1.0") (codes "lod.toml") raw ≡ (loaded, ok tt))
    × ((name : Text)
        → Holds (init builders loaded.proxies empty).0 name
          ↔ (is_configured loaded.proxies name ≡ true))
    × (wire_handlers order loaded ≡ wire_handlers order loaded)
main-serves_example =
    main-serves libraries builders order (λ e. false) (codes "prod") (codes "1.0") line raw loaded
      empty (init builders loaded.proxies empty).0 (codes "primer" ∷ [])
      (wire_handlers order loaded) main_run

-- The instance after the start, and a reload of the same file.
abbrev running : Registry (Unit {0}) dictionaries
running = (init builders loaded.proxies empty).0

started : (init builders loaded.proxies empty).1 ≡ ok tt
unfolding starting
started = refl

init-Holds_iff_example :
    Holds (init builders loaded.proxies empty).0 (codes "osm")
    ↔ (is_configured loaded.proxies (codes "osm") ≡ true)
init-Holds_iff_example = init-Holds_iff builders loaded.proxies empty (codes "osm") started

running-IsServed : IsServed loaded.proxies running
running-IsServed name listed = (init-Holds_iff builders loaded.proxies empty name started).1 listed

reload-IsServed_example :
    IsReloaded libraries builders (codes "prod") (codes "1.0") (codes "lod.toml") blank loaded (
      reload libraries builders
        (codes "prod")
        (codes "1.0")
        (codes "lod.toml")
        blank
        loaded
        running)
reload-IsServed_example =
    reload-IsServed libraries builders (codes "prod") (codes "1.0") (codes "lod.toml") blank loaded
      running running-IsServed

abbrev stranger : Credentials
stranger = record { authorization = codes "Bearer x"; token = [] }

gen_auth_lem_example :
    ((gen_auth dev (codes "t") bearer true stranger blank ≡ none)
      ↔ Presents bearer (codes "t") stranger)
    × ((gen_auth prod (codes "t") bearer true stranger blank ≡ none)
        ⊎ (gen_auth prod (codes "t") bearer true stranger blank
            ≡ some (codes ":nauth", not_found_reply blank)))
gen_auth_lem_example = gen_auth_lem dev (codes "t") bearer true stranger blank

abbrev stores : ClientLibraries (Unit {0}) dictionaries
stores = record {
  Stats = Unit {0};
  default_config = λ ttl. record {
    life_window = ttl;
    stats_enabled = true;
    max_entry_size = pos 500;
    hard_max_cache_size = pos 0;
  };
  new_mem = λ conf.
      if ltb_ℤ conf.max_entry_size (pos 0)
      then err (codes "MaxEntrySize must be >= 0")
      else if ltb_ℤ conf.hard_max_cache_size (pos 0)
      then err (codes "HardMaxCacheSize must be >= 0")
      else ok [];
  mem_stats = λ m. tt;
  no_stats = tt;
  set_tls = λ version opts. opts;
  new_client = λ opts. ok [];
  ping = λ r. (r, none);
}

stores-Works : Works stores
stores-Works = record {
  mem = λ conf cap size. ([], ground arith);
  client = λ opts. ([], refl);
  answers = λ r. refl;
}

main-starts_example :
    let b = clients stores prod (some (codes "16")) [] [] in
    main libraries b order (λ e. false) (codes "prod") (codes "1.0") line raw empty
    ≡ serves
        (codes "primer" ∷ [])
        loaded
        (init b loaded.proxies empty).0
        (wire_handlers order loaded)
unfolding starting entry_size max_entry_mb atoi parse_unsigned parse_digits wrap
main-starts_example =
    main-starts libraries stores order (λ e. false) (codes "prod") (codes "1.0") prod
      (some (codes "16")) [] [] line (codes "primer" ∷ []) raw empty stores-Works (omega arith) refl
      refl (λ name missing. refl)
