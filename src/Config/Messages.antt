-- ===== src/Config/Messages.antt =====
-- The texts of the configuration errors (config/errors.go), and the headers of a proxy's responses
-- (config/config.go: `DoPullHeaders` and `DoDeleteHeaders`).
use lod.Prelude.{◌∷◌, ◌++◌, List, [], if◌then◌else◌, not, Result, ok, panic, none, some}
use lod.Prelude.Int.{pos, eqb_ℤ}
use lod.Prelude.Text.{Text, codes, text_eq}
use lod.Prelude.Dict.{insert}
use lod.Prelude.Strings.{decimal, itoa}
use lod.Config.{
  ConfigError, get_http, invalid_port, proxy_no_name, proxy_invalid_name, missing_tile_url,
  missing_tile_url_template, no_cache_enabled, invalid_mem_cap, invalid_mem_ttl, invalid_redis_ttl,
  invalid_redis_url, missing_cache_template, param_no_name, param_name_duplicate, external, Proxy,
}
use lod.Config.Load.{entries}

-- "config:proxy(%s)"
abbrev in_proxy : Text → Text
in_proxy name = codes "config:proxy(" ++ (name ++ codes ")")

-- `, valid time units are …`, with the micro sign in UTF-8.
abbrev time_units : Text
time_units =
    codes "valid time units are \"ns\", \"us\" (or \""
    ++ (194 ∷ 181 ∷ codes "s\"), \"ms\", \"s\", \"m\", \"h\"")

-- The `Error` methods. `e.Err.Error()` panics on a nil error.
unfoldable pub message : ConfigError → Result (Unit {0}) Text
message (get_http url status e) =
    if not (eqb_ℤ status (pos 0))
    then ok (
        codes "config: failed to fetch config from URL '"
        ++ (url ++ (codes "', got status " ++ itoa status)))
    else elim e [
      | none ↦ panic
      | some text ↦ ok (
          codes "config: failed to fetch config from URL '"
          ++ (url ++ (codes "', got error " ++ text)))
    ]
message (invalid_port port) =
    ok (codes "config:instance invalid port '" ++ (itoa port ++ codes "', valid ports are 1-65535"))
message (proxy_no_name number) =
    ok (codes "config:proxy(#" ++ (decimal number ++ codes ") defined without a name"))
message (proxy_invalid_name number name) = ok (
    codes "config:proxy(#"
    ++ (decimal number
        ++ (codes ") name '"
            ++ (name ++ codes "' may only contain alphanumerics, dashes, and underscores"))))
message (missing_tile_url name) = ok (in_proxy name ++ codes " tile URL empty or not specified")
message (missing_tile_url_template name url parameter) = ok (
    in_proxy name
    ++ (codes " tile URL template '"
        ++ (url ++ (codes "' missing required parameter " ++ parameter))))
message (no_cache_enabled name) =
    ok (in_proxy name ++ codes " must have at least one cache enabled")
message (invalid_mem_cap name) =
    ok (in_proxy name ++ codes ":cache cannot have zero or negative capacity")
message (invalid_mem_ttl name ttl) = ok (
    in_proxy name
    ++ (codes ":cache invalid memory TTL of '" ++ (ttl ++ (codes "', " ++ time_units))))
message (invalid_redis_ttl name ttl) = ok (
    in_proxy name
    ++ (codes ":cache invalid Redis TTL of '" ++ (ttl ++ (codes "', " ++ time_units))))
message (invalid_redis_url name url e) =
    ok (in_proxy name ++ (codes ":cache invalid Redis URL '" ++ (url ++ (codes "': " ++ e))))
message (missing_cache_template name template parameter) = ok (
    in_proxy name
    ++ (codes ":cache key template '"
        ++ (template ++ (codes "' missing required parameter " ++ parameter))))
message (param_no_name name number) =
    ok (in_proxy name ++ (codes ":params no name defined for parameter #" ++ decimal number))
message (param_name_duplicate name parameter) = ok (
    in_proxy name
    ++ (codes ":params duplicate parameter with name '" ++ (parameter.name ++ codes "'")))
message (external e) = ok e

-- The loop of `DoPullHeaders`. `peek` is `resp.Header.Peek`.
unfoldable pub pull_from : (Text → Text) → List Text → List (Text × Text) → List (Text × Text)
pull_from peek [] headers = headers
pull_from peek (header ∷ pulled) headers =
    let header_value = peek header in
    let headers' =
      if not (text_eq header_value []) then insert header header_value headers else headers in
    pull_from peek pulled headers'

-- The loop of `DoDeleteHeaders`. `del` is `c.Response().Header.Del`.
unfoldable pub delete_from : {R : Type 0} → (Text → R → R) → List Text → R → R
delete_from del [] response = response
delete_from del (header ∷ deleted) response = delete_from del deleted (del header response)

module _ {Opts : Type 0} where
  unfoldable pub do_pull_headers :
      Proxy Opts → (Text → Text) → List (Text × Text) → List (Text × Text)
  do_pull_headers p peek headers = pull_from peek (entries p.pull_headers) headers

  unfoldable pub do_delete_headers : Proxy Opts → {R : Type 0} → (Text → R → R) → R → R
  do_delete_headers p del response = delete_from del p.delete_headers response
