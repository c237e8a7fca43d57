-- ===== src/Applications/Tenants.antt =====
-- scim2_server/applications/wsgi.py: `TenantDispatcher`.
pub mod Kept
pub mod Urls
use scim2_server.Base.Dict
use scim2_server.Base.Dict.{Dict, get-put}
use scim2_server.Requests.{ScimRequest, ScimResponse, Body, error_body, respond, header}
use scim2_server.Handler.{Act, go_on, lift, ◌>>>◌}
use scim2_server.Service.{or_empty}
use scim2_server.Applications.{partition}
use scim2_server.Applications.Wsgi.{WsgiEnvironment, variable, Library, Sent, send_response}
use scim2_server.Base.{
  nat_beq_iff, ℕ, zero, suc, ◌+◌, ◌<◌, ◌≤◌, ◌≡◌, refl, sym, ap, ◌∙◌, subst, ◌↔◌, inl, inr, Bool,
  true, false, not, ◌&&◌, ◌||◌, Option, none, some, List, [], ◌∷◌, ◌++◌, map, arith, ltb,
  if◌then◌else◌, Bool-cases, Option-cases, All, contains, ◌==◌, ==_iff, ==_refl, nat_eq, Text,
  text_eq, option_text_eq, Eq, length, codes, keep, Outcome, ok, err, uniqueness, not_found,
  precondition_failed, ◌>>=◌, ◌>>◌, >>=-eq-ok, rstrip, lstrip, strip, is_slash, is_space, raise_if,
  assertion_error, runtime_error, forbidden, Exception, not_implemented, invalid_value,
  payload_too_large, value_error, unsupported_media_type, method_not_allowed, scim_error,
  type_error, split, join, take, drop, leb, nat_beq, type_error, unauthorized, invalid_syntax,
  invalid_cursor, invalid_count, expired_cursor, conflict, option_beq, Outcome-cases, starts_with,
  ◌≢◌, text_beq, min, get_elem?, ◌⊎◌, ◌≢◌,
}

abbrev pub reserved_tenants : List Text
reserved_tenants = codes "v2" ∷ []

unfoldable pub is_valid_tenant : Text → Bool
is_valid_tenant tenant =
    not (tenant == []) && not (contains tenant b'/') && not (contains reserved_tenants tenant)

-- `environ[name] = value`
abbrev pub set_variable : Text → Text → WsgiEnvironment → WsgiEnvironment
set_variable name value environ = record environ {
  variables = Dict.put environ.variables name value;
}

-- The environment of the application of a tenant.
abbrev pub mounted : WsgiEnvironment → Text → Text → WsgiEnvironment
mounted environ tenant path = set_variable (codes "PATH_INFO") path (
    set_variable (codes "SCRIPT_NAME") (variable environ (codes "SCRIPT_NAME") ++ (b'/' ∷ tenant))
      environ)

-- The tenant of a path, with the separator and what is behind it.
abbrev pub mount_first : WsgiEnvironment → Text × Text × Text → Option Text × WsgiEnvironment
mount_first environ (tenant, separator, rest) =
    if not (is_valid_tenant tenant)
    then (none, environ)
    else (some tenant, mounted environ tenant (separator ++ rest))

-- The tenant, and the environment that it leaves.
unfoldable pub select_tenant : WsgiEnvironment → Option Text × WsgiEnvironment
unfolding is_valid_tenant partition
select_tenant environ =
    let (_, _, path) = partition b'/' (variable environ (codes "PATH_INFO")) in
    mount_first environ (partition b'/' path)

-- A WSGI application, on the state that all applications share.
abbrev pub Callable : Type 0 → Type 0
Callable S = WsgiEnvironment → Act S Sent

-- `get_application`, with what the factory returns if it is called. The lock makes it one step.
unfoldable pub get_application :
    {A : Type 0} → Option A → Text → Dict Text A → Option A × Dict Text A
get_application built tenant applications = elim (Dict.get applications tenant) [
  | some application ↦ (some application, applications)
  | none ↦ elim built [
    | none ↦ (none, applications)
    | some application ↦ (some application, Dict.put applications tenant application)
  ]
]

-- The answer to a request without an application.
abbrev pub unknown_tenant : {P : Type 0} → Library P → Sent
unknown_tenant {P} library = send_response library (respond 404 (some (error_body 404)) [])

module _ {P S : Type 0} (library : Library P) (factory : Text → Option (Callable S)) where
  abbrev pub answer_with :
      WsgiEnvironment
      → S
      → Option (Callable S) × Dict Text (Callable S)
      → Outcome Sent × S × Dict Text (Callable S)
  answer_with environ s (none, applications) = (ok (unknown_tenant library), s, applications)
  answer_with environ s (some application, applications) =
      ((application environ s).0, (application environ s).1, applications)

  -- `__call__`
  unfoldable pub call :
      WsgiEnvironment → S → Dict Text (Callable S) → Outcome Sent × S × Dict Text (Callable S)
  unfolding select_tenant get_application
  call environ s applications =
      let (tenant, environ') = select_tenant environ in
      answer_with environ' s (elim tenant [
        | none ↦ (none, applications)
        | some tenant ↦ get_application (factory tenant) tenant applications
      ])
