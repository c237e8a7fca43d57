-- ===== src/Applications/Forwarded.antt =====
-- scim2_server/applications/wsgi.py: `ForwardedHeaders`.
use scim2_server.Handler.{Act}
use scim2_server.Applications.{partition}
use scim2_server.Applications.Tenants.{set_variable, Callable}
use scim2_server.Applications.Wsgi.{WsgiEnvironment, variable, Sent}
use scim2_server.Base.{
  [], ◌∷◌, ◌++◌, if◌then◌else◌, ◌==◌, nat_eq, Text, text_eq, option_text_eq, codes, rstrip, strip,
  is_slash, is_space,
}

-- `forwarded(name)`, of which no value and an empty one count the same.
unfoldable pub forwarded : Text → WsgiEnvironment → Text
unfolding partition strip is_space
forwarded name environ =
    strip is_space (partition b',' (variable environ (codes "HTTP_X_FORWARDED_" ++ name))).0

-- `if value := …: environ = change(value)`
abbrev pub when :
    Text → (Text → WsgiEnvironment → WsgiEnvironment) → WsgiEnvironment → WsgiEnvironment
when value change environ = if value == [] then environ else change value environ

abbrev pub set_proto : Text → WsgiEnvironment → WsgiEnvironment
set_proto proto environ = set_variable (codes "wsgi.url_scheme") proto environ

abbrev pub set_host : Text → WsgiEnvironment → WsgiEnvironment
set_host host environ = set_variable (codes "HTTP_HOST") host environ

abbrev pub set_port : Text → WsgiEnvironment → WsgiEnvironment
set_port port environ =
    let host = (partition b':' (variable environ (codes "HTTP_HOST"))).0 in
    set_variable (codes "SERVER_PORT") port
      (set_variable (codes "HTTP_HOST") (host ++ (b':' ∷ port)) environ)

abbrev pub set_prefix : Text → WsgiEnvironment → WsgiEnvironment
set_prefix prefix environ =
    set_variable (codes "SCRIPT_NAME")
      (rstrip is_slash prefix ++ variable environ (codes "SCRIPT_NAME")) environ

abbrev pub set_client : Text → WsgiEnvironment → WsgiEnvironment
set_client client environ = set_variable (codes "REMOTE_ADDR") client environ

-- What `__call__` does to the environment, in the order of its tests.
unfoldable pub rewrite_environment : WsgiEnvironment → WsgiEnvironment
unfolding forwarded
rewrite_environment environ =
    let e1 = when (forwarded (codes "PROTO") environ) set_proto environ in
    let e2 = when (forwarded (codes "HOST") e1) set_host e1 in
    let e3 = when (forwarded (codes "PORT") e2) set_port e2 in
    let e4 = when (forwarded (codes "PREFIX") e3) set_prefix e3 in
    when (forwarded (codes "FOR") e4) set_client e4

-- `__call__`
unfoldable pub call_forwarded : {S : Type 0} → Callable S → WsgiEnvironment → Act S Sent
unfolding rewrite_environment
call_forwarded application environ = application (rewrite_environment environ)
