-- ===== src/Service/Discovery.antt =====
-- The discovery endpoints of scim2_server/service.py, and its answers to exceptions.
use scim2_server.Base.Dict
use scim2_server.Base.Dict.{Dict}
use scim2_server.Requests.{
  ScimResponse, Document, config_document, type_document, schema_document, document_body,
  documents_body, error_body, respond, set_header,
}
use scim2_server.Service.{ScimService, Scheme, oauth2, oauthbearertoken, httpbasic, find_type}
use scim2_server.Base.{
  value_error, ℕ, Bool, true, false, ◌&&◌, Option, none, some, List, [], ◌∷◌, ◌++◌, map, nat_beq,
  if◌then◌else◌, contains, nat_eq, Text, codes, ◌==◌, text_eq, option_text_eq, join, ◌>>◌,
  Exception, Outcome, ok, err, not_found, forbidden, unsupported_media_type, method_not_allowed,
  scim_error, runtime_error, value_error, type_error, assertion_error,
}

unfoldable pub forbid_filter : Dict Text Text → Outcome (Unit {0})
forbid_filter query = elim (Dict.get query (codes "filter")) [
  | none ↦ ok tt
  | some _ ↦ err forbidden
]

-- `f"{location}/{id}"`
abbrev pub below : Text → Option Text → Text
below location none = location ++ codes "/None"
below location (some id) = location ++ b'/' ∷ id

unfoldable pub discovery_response : {P : Type 0} → Text → Document → ScimResponse P
discovery_response location document =
    respond 200 (some (document_body document)) ((codes "Content-Location", location) ∷ [])

-- `CHALLENGES`
abbrev pub challenge_of : Scheme → Option Text
challenge_of oauthbearertoken = some (codes "Bearer realm=\"SCIM\"")
challenge_of oauth2 = some (codes "Bearer realm=\"SCIM\"")
challenge_of httpbasic = some (codes "Basic realm=\"SCIM\"")
challenge_of _ = none

-- `dict.fromkeys`: each challenge once, in the order of the first schemes.
unfoldable pub challenges : List Scheme → List Text → List Text
challenges [] seen = seen
challenges (scheme ∷ schemes) seen = challenges schemes (elim (challenge_of scheme) [
  | none ↦ seen
  | some challenge ↦ if contains seen challenge then seen else seen ++ challenge ∷ []
])

-- `isinstance(exception, SCIMException)`
abbrev pub is_scim : Exception → Bool
is_scim runtime_error = false
is_scim value_error = false
is_scim type_error = false
is_scim assertion_error = false
is_scim _ = true

abbrev pub allow_header : Exception → Dict Text Text → Dict Text Text
allow_header (method_not_allowed allowed) headers =
    Dict.put headers (codes "Allow") (join (codes ", ") allowed)
allow_header _ headers = headers

-- `HTTPStatus` of Python.
abbrev pub http_statuses : List ℕ
http_statuses =
    100 ∷ 101 ∷ 102 ∷ 103 ∷ 200 ∷ 201 ∷ 202 ∷ 203 ∷ 204 ∷ 205 ∷ 206 ∷ 207 ∷ 208 ∷ 226 ∷ 300 ∷ 301
    ∷ 302 ∷ 303 ∷ 304 ∷ 305 ∷ 307 ∷ 308 ∷ 400 ∷ 401 ∷ 402 ∷ 403 ∷ 404 ∷ 405 ∷ 406 ∷ 407 ∷ 408 ∷ 409
    ∷ 410 ∷ 411 ∷ 412 ∷ 413 ∷ 414 ∷ 415 ∷ 416 ∷ 417 ∷ 418 ∷ 421 ∷ 422 ∷ 423 ∷ 424 ∷ 425 ∷ 426 ∷ 428
    ∷ 429 ∷ 431 ∷ 451 ∷ 500 ∷ 501 ∷ 502 ∷ 503 ∷ 504 ∷ 505 ∷ 506 ∷ 507 ∷ 508 ∷ 510 ∷ 511 ∷ []

module _ {P D J C : Type 0} (sv : ScimService P D J C) where
  unfoldable pub service_provider_config : Text → Dict Text Text → Outcome (ScimResponse P)
  unfolding forbid_filter discovery_response
  service_provider_config location query =
      forbid_filter query >> ok (discovery_response location (config_document location))

  unfoldable pub resource_types : Text → Dict Text Text → Outcome (ScimResponse P)
  unfolding forbid_filter
  resource_types location query =
      forbid_filter query
      >> ok (
          respond 200
            (some
              (documents_body (map (λ r. type_document r (below location r.id)) sv.resource_types)))
            [])

  unfoldable pub resource_type : Text → Text → Dict Text Text → Outcome (ScimResponse P)
  unfolding forbid_filter discovery_response find_type
  resource_type location id query =
      forbid_filter query >> elim (find_type (λ r. r.id == some id) sv.resource_types) [
        | none ↦ err not_found
        | some r ↦ ok (discovery_response location (type_document r location))
      ]

  unfoldable pub schemas : Text → Dict Text Text → Outcome (ScimResponse P)
  unfolding forbid_filter
  schemas location query =
      forbid_filter query
      >> ok (
          respond 200
            (some
              (documents_body (map (λ s. schema_document s (below location (some s))) sv.schemas)))
            [])

  unfoldable pub schema : Text → Text → Dict Text Text → Outcome (ScimResponse P)
  unfolding forbid_filter discovery_response
  schema location id query =
      forbid_filter query
      >> (if contains sv.schemas id
          then ok (discovery_response location (schema_document id location))
          else err not_found)

  -- The status of `error_of`: the statuses of scim2_models come from the library.
  unfoldable pub error_of : Exception → ℕ
  error_of (method_not_allowed _) = 405
  error_of unsupported_media_type = 415
  error_of (scim_error status) = status
  error_of e = if is_scim e then sv.library_status e else 500

  unfoldable pub www_authenticate : Option Text
  unfolding challenges
  www_authenticate = elim (challenges sv.config.authentication_schemes []) [
    | [] ↦ none
    | c ∷ cs ↦ some (join (codes ", ") (c ∷ cs))
  ]

  abbrev pub challenge_header : Exception → ScimResponse P → ScimResponse P
  challenge_header e response =
      if is_scim e && nat_beq (error_of e) 401
      then elim www_authenticate [
        | none ↦ response
        | some challenge ↦ set_header (codes "WWW-Authenticate") challenge response
      ]
      else response

  -- The status of the response: `error.status or 500`.
  abbrev pub error_status : Exception → ℕ
  error_status e = if nat_beq (error_of e) 0 then 500 else error_of e

  abbrev pub error_of_status : Exception → ScimResponse P
  error_of_status e =
      let response = respond (error_status e) (some (error_body (error_of e))) [] in
      challenge_header e (record response { headers = allow_header e response.headers })

  -- `HTTPStatus(status)` raises a `ValueError` on a status that is not one of its members.
  unfoldable pub error_response : Exception → Outcome (ScimResponse P)
  unfolding error_of www_authenticate
  error_response e =
      if contains http_statuses (error_status e) then ok (error_of_status e) else err value_error
