-- ===== src/Tests/Starting.antt =====
-- Tests of the start of the server (src/mcp_socket_server/server.py).
use mcp_socket_server.Prelude.{
  String, ◌≡◌, refl, true, false, none, some, List, [], ◌∷◌, Result, ok, err,
}
use mcp_socket_server.Errors.{Exn, os_error, other_error}
use mcp_socket_server.Value.{Value, text, num, bool, list, nil, cons, null, end, dict}
use mcp_socket_server.Config.{Config}
use mcp_socket_server.Server.Starting.{
  Call, asks_scheduler, asks_registry, asks_audit, starts, imported, init_server, perform_all,
  proxy_of,
}
use mcp_socket_server.Server.Starting.Serving.{Served, init_server-Served}

-- A disk on which one database cannot be opened.
abbrev connect : Value → Result Exn (Unit {0})
connect (text s) = ok tt
connect v = err (os_error "unable to open database file")

abbrev logs : String → Result Exn (Unit {0})
logs level = ok tt

abbrev cfg : Config
cfg = record {
  host = text "0.0.0.0";
  port = num 8080;
  db_path = text "./mcp_socket_server.db";
  behind_proxy = bool false;
  audit_retention_days = num 90;
  download_dir = text "./downloads";
  proxy = text " http://10.0.0.1:3128 ";
  log_level = text "INFO";
  default_timeout = num 30;
  pool = dict end;
  cmd_exec_whitelist = list (cons (text "ls") nil);
}

-- A second start on another database, with a proxy that is no text.
abbrev later_calls : List Call
later_calls =
    asks_scheduler
    ∷ starts true (record cfg { db_path = text "./b.db"; proxy = num 1 })
    ∷ asks_registry null
    ∷ asks_audit null null
    ∷ []

init_server-Served_example :
    Served connect logs
      (perform_all connect logs later_calls (init_server connect logs false cfg imported).0)
unfolding init_server
init_server-Served_example = init_server-Served connect logs false cfg imported later_calls refl

second_start_fails :
    (init_server connect logs true (record cfg { proxy = num 1 }) imported).1
    ≡ err (other_error "AttributeError")
unfolding init_server
second_start_fails = refl

failed_start_opens_nothing :
    (init_server connect logs true (record cfg { db_path = null }) imported).0.registry ≡ none
unfolding init_server
failed_start_opens_nothing = refl

proxy_is_stripped : proxy_of (text " http://10.0.0.1:3128 ") ≡ ok (some "http://10.0.0.1:3128")
unfolding proxy_of
proxy_is_stripped = refl
