-- ===== src/Applications.antt =====
-- scim2_server/applications/base.py: the parts of the WSGI and ASGI applications that do no input or
-- output.
pub mod Wsgi
pub mod Asgi
pub mod Limited
pub mod Bodies
pub mod Received
pub mod Reads
pub mod Served
pub mod Tenants
pub mod Forwarded
mod Tests
use scim2_server.Base.Dict
use scim2_server.Base.Dict.{Dict}
use scim2_server.Routing.{Operation}
use scim2_server.Requests.{ScimRequest, ScimResponse, url}
use scim2_server.Service.{ScimService}
use scim2_server.Service.Routes.{match_request, same_operation}
use scim2_server.Service.Discovery.{error_response, is_scim}
use scim2_server.Base.{
  ℕ, zero, suc, ◌+◌, ◌<◌, ◌≤◌, ◌≡◌, refl, sym, ap, ◌∙◌, subst, ◌↔◌, inl, inr, Bool, true, false,
  not, ◌&&◌, ◌||◌, Option, none, some, List, [], ◌∷◌, ◌++◌, map, arith, ltb, if◌then◌else◌,
  Bool-cases, Option-cases, All, contains, ◌==◌, ==_iff, ==_refl, nat_eq, Text, text_eq,
  option_text_eq, Eq, length, codes, keep, Outcome, ok, err, uniqueness, not_found,
  precondition_failed, ◌>>=◌, ◌>>◌, >>=-eq-ok, rstrip, lstrip, strip, is_slash, is_space, raise_if,
  assertion_error, runtime_error, forbidden, Exception, not_implemented, invalid_value,
  payload_too_large, value_error, unsupported_media_type, method_not_allowed, scim_error,
  type_error, split, join, take, drop, leb, nat_beq, type_error, unauthorized, invalid_syntax,
  invalid_cursor, invalid_count, expired_cursor, conflict, option_beq, Outcome-cases, starts_with,
  min, get_elem?, ◌⊎◌, ◌≢◌,
}

abbrev pub version_prefix : Text
version_prefix = codes "/v2"

-- `text.removeprefix(prefix)`
unfoldable pub remove_prefix : Text → Text → Text
remove_prefix text prefix = if starts_with text prefix then drop (length prefix) text else text

-- `text.removesuffix(suffix)`, for a suffix that is not empty
unfoldable pub remove_suffix : Text → Text → Text
remove_suffix [] suffix = []
remove_suffix (c ∷ text) suffix =
    let rest = remove_suffix text suffix in if (c ∷ text) == suffix then [] else c ∷ rest

unfoldable pub split_path : Text → Text
unfolding remove_prefix remove_suffix
split_path path =
    let relative =
      if path == version_prefix || starts_with path (version_prefix ++ codes "/")
      then remove_prefix path version_prefix
      else path in
    remove_suffix relative (codes ".scim")

-- `body if limit is None else body[: limit + 1]`
abbrev pub cut : Option ℕ → List ℕ → List ℕ
cut none body = body
cut (some limit) body = take (limit + 1) body

-- `text.partition(separator)`, for a separator of one character
unfoldable pub partition : ℕ → Text → Text × Text × Text
partition c [] = ([], [], [])
partition c (d ∷ text) =
    let (before, separator, after) = partition c text in
    if nat_beq d c then ([], c ∷ [], text) else (d ∷ before, separator, after)

-- `headers.setdefault(name, value)`
abbrev pub set_default : Dict Text Text → Text → Text → Dict Text Text
set_default headers name value = elim (Dict.get headers name) [
  | none ↦ Dict.put headers name value
  | some _ ↦ headers
]

-- `BaseApplication`, with the methods that an application overrides.
pub record BaseApplication (P D J C : Type 0) : Type 0 where
  pub service : ScimService P D J C
  pub propagate_exceptions : Bool
  pub check_auth : ScimRequest → Outcome (Unit {0})
  pub get_subject : ScimRequest → Outcome (Option Text)

-- `get_subject` and `check_auth`, where no application overrides them.
abbrev pub no_subject : ScimRequest → Outcome (Option Text)
no_subject r = ok none

abbrev pub accept_all : ScimRequest → Outcome (Unit {0})
accept_all r = ok tt

module _ {P D J C : Type 0} (app : BaseApplication P D J C) where
  -- `_propagates`
  unfoldable pub propagates : Exception → Bool
  propagates e = app.propagate_exceptions && not (is_scim e)

  unfoldable pub needs_auth : ScimRequest → Outcome Bool
  needs_auth r = match_request app.service r >>= λ target.
      ok (not (same_operation target.operation Operation.service_provider_config))

  -- The logging of the exception is left out.
  unfoldable pub handle_exception : Exception → Outcome (ScimResponse P)
  handle_exception e = error_response app.service e

  unfoldable pub finalize_response : ScimRequest → ScimResponse P → ScimResponse P
  finalize_response r response = record response {
    headers =
        set_default (set_default response.headers (codes "Location") (url r))
          (codes "Cache-Control") (codes "no-cache");
  }

  -- What `dispatch_request` does before the handler: the request with its subject.
  unfoldable pub authenticate : ScimRequest → Outcome ScimRequest
  unfolding needs_auth
  authenticate r = needs_auth r >>= λ needed.
      (if needed then app.check_auth r else ok tt)
      >> (app.get_subject r >>= λ subject. ok (record r { subject = subject }))

  -- The `except` of `serve`, and what follows it.
  abbrev pub answer : ScimRequest → Outcome (ScimResponse P) → Outcome (ScimResponse P)
  answer r (ok response) = ok (finalize_response r response)
  answer r (err e) =
      if propagates e
      then err e
      else handle_exception e >>= λ response. ok (finalize_response r response)
