-- ===== src/Environment.antt =====
-- env/env.go, util/debug.go, util/log.go, `IsUrl` of util/tool.go and `parseFlags` of cmd/lod/main.go: the environment, the flags
-- of the command line and what is logged.
--
-- The command line is what the package flag has parsed. A line of the log is kept as its parts; the
-- formatting of the standard logger and of JSON is that of the libraries.
pub mod Flags
use lod.Prelude.{
  ℕ, List, [], ◌∷◌, Bool, true, false, not, ◌&&◌, ◌||◌, ◌==◌, if◌then◌else◌, any, Option, none,
  some,
}
use lod.Prelude.Text.{Text, codes, text_eq}

pub data Env : Type 0 where
  prod : Env
  dev : Env

-- The variable DEPLOY, and the flag if the command line has been parsed.
unfoldable pub get_env : Text → Option Bool → Env
get_env deploy none = if text_eq deploy (codes "DEV") then dev else prod
get_env deploy (some is_dev_flag) =
    if text_eq deploy (codes "DEV") || is_dev_flag then dev else prod

unfoldable pub is_prod : Env → Bool
is_prod prod = true
is_prod dev = false

-- A part of a text in front of the parts behind a comma.
abbrev pub extend : ℕ → List Text → List Text
extend c [] = (c ∷ []) ∷ []
extend c (part ∷ parts) = (c ∷ part) ∷ parts

-- `strings.Split(s, ",")`
unfoldable pub split : Text → List Text
split [] = [] ∷ []
split (c ∷ s) = if c == b',' then [] ∷ split s else extend c (split s)

pub record CommandLine : Type 0 where
  pub file : Text
  pub is_dev_flag : Bool
  pub debug_flag_ptr : Text
  pub help : Bool

-- `parseFlags` behind `flag.Parse`: the debug flags, or the exit after the help text.
unfoldable pub parse_flags : CommandLine → Option (List Text)
parse_flags flags = if flags.help then none else some (split flags.debug_flag_ptr)

unfoldable pub is_debug_flag : Text → List Text → Bool
is_debug_flag flag debug_flags = any (λ f. text_eq f flag) debug_flags

-- A line for the standard logger in development, or a message in JSON.
pub data Line : Type 0 where
  plain : Text → Text → Text → Line
  json : Text → Text → Text → Line

-- `printLog` for a message that is formatted; `trim_space` is that of strings.
unfoldable pub print_log : (Text → Text) → Env → Text → Text → Text → Text → Line
print_log trim_space dev severity format caller message = plain format caller message
print_log trim_space prod severity format caller message = json severity (trim_space caller) message

module _ (trim_space : Text → Text) (environment : Env) where
  unfoldable pub info : Text → Text → Line
  info = print_log trim_space environment (codes "info") (codes "INF [%s] %s\n")

  -- `Error`, whose severity is "warn".
  unfoldable pub error : Text → Text → Line
  error = print_log trim_space environment (codes "warn") (codes "ERR [%s] %s\n")

  unfoldable pub debug : Text → Text → Option Line
  debug caller message =
      if is_prod environment
      then none
      else some
          (print_log trim_space environment (codes "debug") (codes "DBG [%s] %s\n") caller message)

  unfoldable pub debug_flag : List Text → Text → Text → Text → Option Line
  debug_flag debug_flags flag caller message =
      if is_debug_flag flag debug_flags then debug caller message else none

-- `IsUrl` of util/tool.go: `url.Parse` gives the scheme and the host.
unfoldable pub is_url : (Text → Option (Text × Text)) → Text → Bool
is_url parse_url s = elim (parse_url s) [
  | none ↦ false
  | some (scheme, host) ↦ not (text_eq scheme []) && not (text_eq host [])
]
