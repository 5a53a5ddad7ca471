-- ===== src/Cache/Clients/Runs.antt =====
-- The theorems on the stores and the metrics of a cache (cache/cache.go) at concrete inputs: stores that
-- are dictionaries.
use lod.Prelude.{if◌then◌else◌, [], ◌∷◌, true, ok, err, none, some, ◌≡◌, refl, inl, arith}
use lod.Prelude.Int.{pos, negsuc, wrap, ltb_ℤ}
use lod.Prelude.Text.{codes, text_eq}
use lod.Prelude.Strings.{contains, has_prefix}
use lod.Prelude.Strings.Parse.{atoi, parse_digits, parse_unsigned}
use lod.Config.{Proxy, Libraries, matches_name, is_name_char, validate_params, validate_params_from}
use lod.Config.Validated.{IsValidProxy}
use lod.Config.Params.{validate_params_iff}
use lod.Environment.{prod}
use lod.Cache.Samples.{dictionaries, proxy}
use lod.Cache.Registry.{Registry, init}
use lod.Cache.Clients.{ClientLibraries, entry_size, max_entry_mb, clients}
use lod.Cache.Clients.Boots.{Works, init_valid}

sizes_run :
    (entry_size (some (codes "16")) ≡ pos 16777216)
    × (entry_size (some (codes "4MB")) ≡ pos 4194304)
    × (entry_size (some (codes "-1")) ≡ negsuc 1048575)
unfolding atoi parse_unsigned parse_digits entry_size max_entry_mb wrap
sizes_run = (refl, refl, refl)

abbrev lib : ClientLibraries (Unit {0}) dictionaries
lib = record {
  Stats = Unit {0};
  default_config = λ ttl. record {
    life_window = ttl;
    stats_enabled = true;
    max_entry_size = pos 500;
    hard_max_cache_size = pos 0;
  };
  new_mem = λ conf.
      if ltb_ℤ conf.max_entry_size (pos 0)
      then err (codes "MaxEntrySize must be >= 0")
      else if ltb_ℤ conf.hard_max_cache_size (pos 0)
      then err (codes "HardMaxCacheSize must be >= 0")
      else ok [];
  mem_stats = λ m. tt;
  no_stats = tt;
  set_tls = λ version opts. opts;
  new_client = λ opts. ok [];
  ping = λ r. (r, none);
}

works : Works lib
works = record {
  mem = λ conf cap size. ([], ground arith);
  client = λ opts. ([], refl);
  answers = λ r. refl;
}

abbrev config_lib : Libraries (Unit {0})
config_lib = record {
  parse_duration = λ t. some (pos 3600);
  parse_redis_url = λ url. ok tt;
  parse_url = λ file. none;
  http_get = λ url. err (codes "no route to host");
  read_file = λ file. err (codes "no such file");
  expand_env = λ t. t;
  decode_toml = λ t. err (codes "empty");
}

abbrev served : Proxy (Unit {0})
served = record (proxy true true) {
  cache = record ((proxy true true).cache) { redis_opts = some tt; redis_tls = true };
}

served-IsValid : IsValidProxy config_lib served
unfolding matches_name is_name_char contains has_prefix text_eq validate_params validate_params_from
served-IsValid = record {
  name = refl;
  url = record { z = refl; x = refl; y = refl };
  endpoint = refl;
  cached = record {
    enabled = inl refl;
    mem = λ on. record { cap = omega arith; parsed = refl; expires = omega arith };
    redis = λ on. record {
      opts = tt;
      parsed_url = refl;
      stored = refl;
      nonnegative = omega arith;
      parsed_ttl = inl (refl, refl);
    };
    key = record { z = refl; x = refl; y = refl };
  };
  named = tt;
  distinct = ((validate_params_iff served).0 refl).1;
}

abbrev fresh : Registry (Unit {0}) dictionaries
fresh = record { caches = []; registered = [] }

init_run :
    (init (clients lib prod (some (codes "16")) [] []) (served ∷ served ∷ []) fresh).1 ≡ ok tt
unfolding entry_size max_entry_mb atoi parse_unsigned parse_digits wrap
init_run =
    init_valid config_lib lib works prod (some (codes "16")) (omega arith) [] []
      (served ∷ served ∷ []) fresh (served-IsValid, (served-IsValid, tt)) (λ name missing. refl)
