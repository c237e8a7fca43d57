-- ===== src/TestServer.antt =====
-- scim2_server/testserver/application.py: the application of the `scim2-server` command.
mod Separated
pub mod Accepted
mod Tests
use scim2_server.Requests.{ScimRequest, header}
use scim2_server.Service.{Scheme, oauthbearertoken, httpbasic, or_empty}
use scim2_server.Applications.{partition}
use scim2_server.Base.{
  ℕ, zero, suc, ◌+◌, ◌<◌, ◌≤◌, ◌≡◌, refl, sym, ap, ◌∙◌, subst, ◌↔◌, inl, inr, Bool, true, false,
  not, ◌&&◌, ◌||◌, Option, none, some, List, [], ◌∷◌, ◌++◌, map, arith, ltb, if◌then◌else◌,
  Bool-cases, Option-cases, All, contains, ◌==◌, ==_iff, ==_refl, nat_eq, Text, text_eq,
  option_text_eq, Eq, length, codes, keep, Outcome, ok, err, uniqueness, not_found,
  precondition_failed, ◌>>=◌, ◌>>◌, >>=-eq-ok, rstrip, lstrip, strip, is_slash, is_space, raise_if,
  assertion_error, runtime_error, forbidden, Exception, not_implemented, invalid_value,
  payload_too_large, value_error, unsupported_media_type, method_not_allowed, scim_error,
  type_error, split, join, take, drop, leb, nat_beq, type_error, unauthorized, invalid_syntax,
  invalid_cursor, invalid_count, expired_cursor, conflict, option_beq, Outcome-cases, starts_with,
  ◌≢◌, text_beq, min, get_elem?, ◌⊎◌, ◌≢◌,
}

abbrev pub is_empty : {A : Type 0} → List A → Bool
is_empty [] = true
is_empty (a ∷ rest) = false

-- `announce_authentication_schemes`: the schemes of the configuration, which only their type tells apart here.
unfoldable pub announce_authentication_schemes : List Scheme → Bool → Bool → List Scheme
announce_authentication_schemes schemes bearer_token basic =
    let with_bearer =
      if bearer_token || not (basic || not (is_empty schemes))
      then schemes ++ oauthbearertoken ∷ []
      else schemes in
    if basic then with_bearer ++ httpbasic ∷ [] else with_bearer

-- `StaticCredentialsApplication`, with what it calls of Python: `str.lower`, and
-- `base64.b64decode(value, validate=True).decode()`, which gives `none` for the two exceptions that are
-- caught. It raises others: a `ValueError` on a character that is not ASCII.
pub record StaticCredentials : Type 0 where
  pub bearer_tokens : List Text
  pub basic_credentials : List (Text × Text)
  pub lower : Text → Text
  pub decode : Text → Outcome (Option Text)

-- The `if not separator` of `decode_basic_credentials`.
abbrev pub credentials_of : Text × Text × Text → Option (Text × Text)
credentials_of (user, [], password) = none
credentials_of (user, c ∷ cs, password) = some (user, password)

module _ (app : StaticCredentials) where
  unfoldable pub decode_basic_credentials : Text → Outcome (Option (Text × Text))
  unfolding partition
  decode_basic_credentials value = app.decode value >>= λ decoded.
      ok (elim decoded [ none ↦ none | some text ↦ credentials_of (partition b':' text) ])

  -- `_equals` compares the encodings, which are equal when the texts are.
  unfoldable pub is_valid_token : Text → Bool
  is_valid_token token = contains app.bearer_tokens token

  abbrev pub lists : List (Text × Text) → Text × Text → Bool
  lists [] credentials = false
  lists ((user, password) ∷ rest) credentials =
      credentials.0 == user && credentials.1 == password || lists rest credentials

  abbrev pub among : Option (Text × Text) → Bool
  among none = false
  among (some credentials) = lists app.basic_credentials credentials

  unfoldable pub are_valid_credentials : Text → Outcome Bool
  unfolding decode_basic_credentials
  are_valid_credentials value = decode_basic_credentials value >>= λ found. ok (among found)

  abbrev pub refuse_unless : Bool → Outcome (Unit {0})
  refuse_unless valid = if valid then ok tt else err unauthorized

  -- The tests of `check_auth`, for the parts of the Authorization header.
  abbrev pub check_parts : Text × Text × Text → Outcome (Unit {0})
  check_parts (scheme, _, value) =
      if app.lower scheme == codes "bearer" && is_valid_token value
      then ok tt
      else if app.lower scheme == codes "basic"
      then (are_valid_credentials value >>= refuse_unless)
      else err unauthorized

  unfoldable pub check_auth : ScimRequest → Outcome (Unit {0})
  unfolding partition is_valid_token are_valid_credentials header
  check_auth r =
      if is_empty app.bearer_tokens && is_empty app.basic_credentials
      then ok tt
      else check_parts (partition b' ' (or_empty (header app.lower (codes "Authorization") r)))
