-- ===== src/Server/Serve.antt =====
-- www/www.go: `Serve`, its settings, the format of its log, and how it ends.
--
-- The application of fiber is what `Serve` gives it: settings, the logger, the routes and the address. The
-- parameter `listen` says how listening on an address ends: with an error, or after a shutdown.
use lod.Prelude.{ℕ, ◌*◌, List, [], ◌++◌, Bool, true, Option, none, some}
use lod.Prelude.Text.{Text, codes}
use lod.Config.{Capabilities}
use lod.Config.Load.{get_listen_port}
use lod.Environment.{Env, prod, dev}
use lod.Server.{Endpoint, Route, wire_handlers}

-- `fiber.Config` but for the error handler; times in nanoseconds.
pub record Settings : Type 0 where
  pub case_sensitive : Bool
  pub disable_startup_message : Bool
  pub server_header : Text
  pub proxy_header : Text
  pub read_timeout : ℕ
  pub write_timeout : ℕ
  pub idle_timeout : ℕ

abbrev pub second : ℕ
second = 1000 * 1000 * 1000

unfoldable pub settings : Settings
settings = record {
  case_sensitive = true;
  disable_startup_message = true;
  server_header = [];
  proxy_header = codes "X-Forwarded-For";
  read_timeout = second * 2;
  write_timeout = second * 30;
  idle_timeout = 60 * 60 * second;
}

abbrev pub request_part : Text
request_part = codes "\"${method} ${path} ${protocol}\" "

unfoldable pub log_format : Env → Text
log_format prod =
    codes "${ip} ${header:x-forwarded-for} ${header:x-real-ip} "
    ++ (codes "[${time}] ${pid} ${locals:requestid} ${locals:lod-cache} "
        ++ (request_part ++ codes "${status} ${latency} ${bytesSent}b \"${referrer}\" \"${ua}\"\n"))
log_format dev =
    codes "${ip} [${time}] ${locals:lod-cache} "
    ++ (request_part ++ codes "${status} ${latency} ${bytesSent}b\n")

-- The configuration of the logger, whose output is the standard one.
pub record Logger : Type 0 where
  pub time_zone : Text
  pub time_format : Text
  pub format : Text

unfoldable pub logger : Env → Logger
logger environment = record {
  time_zone = codes "local";
  time_format = codes "2006-01-02T15:04:05-0700";
  format = log_format environment;
}

-- The application, the address it listens on, and the code of the exit.
pub record Served : Type 0 where
  pub application : Settings
  pub log : Logger
  pub routes : List Route
  pub address : Text
  pub exit_code : ℕ

-- `log.Fatalln` exits with 1.
abbrev pub exit_of : Option Text → ℕ
exit_of none = 0
exit_of (some e) = 1

unfoldable pub serve :
    {Opts : Type 0}
    → (Text → List (Text × Endpoint) → List (Text × Endpoint))
    → Env
    → (Text → Option Text)
    → Capabilities Opts
    → Served
serve order environment listen cap = record {
  application = settings;
  log = logger environment;
  routes = wire_handlers order cap;
  address = get_listen_port cap;
  exit_code = exit_of (listen (get_listen_port cap));
}
