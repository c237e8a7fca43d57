-- ===== src/Service/Answers.antt =====
-- The bodies that a service reads, the resources it publishes, and its responses for one resource
-- (scim2_server/service.py).
use scim2_server.Base.Dict
use scim2_server.Base.Dict.{Dict}
use scim2_server.Models.{Resource, Meta, ResourceType}
use scim2_server.Conditions.{Conditions, check}
use scim2_server.Requests.{ScimResponse, resource_body, respond, set_header}
use scim2_server.Service.{
  ScimService, Context, creation_request, replacement_request, get_resource_type_by_endpoint,
  get_resource_type_of, etag_supported, ensure_json, ensure_patch_supported,
}
use scim2_server.Service.Routes.{resource_location}
use scim2_server.Base.{
  ℕ, Bool, ◌||◌, Option, none, some, List, [], ◌∷◌, ◌++◌, if◌then◌else◌, contains, nat_eq, Text,
  codes, ◌==◌, text_eq, option_text_eq, rstrip, is_slash, starts_with, ◌>>=◌, ◌>>◌, Outcome, ok,
  err, assertion_error,
}

abbrev pub has_slash : Text → Bool
has_slash s = contains s b'/'

-- `s.rpartition("/")`, without the separator
unfoldable pub rpartition : Text → Text × Text
rpartition [] = ([], [])
rpartition (c ∷ s) =
    let (front, back) = rpartition s in
    if has_slash s then (c ∷ front, back) else if is_slash c then ([], s) else ([], c ∷ s)

abbrev pub version_header : Text → Option Text → Dict Text Text → Dict Text Text
version_header name none headers = headers
version_header name (some []) headers = headers
version_header name (some (c ∷ version)) headers = Dict.put headers name (c ∷ version)

module _ {P D J C : Type 0} (sv : ScimService P D J C) where
  -- `read_body` for the models of resources
  unfoldable pub read_body : Context → ResourceType → List ℕ → Option Text → Outcome Resource
  read_body context rt body content_type =
      ensure_json sv content_type >> sv.validate context rt body

  abbrev pub read_creation : ResourceType → List ℕ → Option Text → Outcome Resource
  read_creation = read_body creation_request

  abbrev pub read_replacement : ResourceType → List ℕ → Option Text → Outcome Resource
  read_replacement = read_body replacement_request

  unfoldable pub read_patch : ResourceType → List ℕ → Option Text → Outcome D
  read_patch rt body content_type =
      ensure_patch_supported sv >> ensure_json sv content_type >> sv.validate_patch rt body

  unfoldable pub decode_body : List ℕ → Option Text → Outcome J
  decode_body body content_type = ensure_json sv content_type >> sv.from_json body

  abbrev pub parameter : Text → Dict Text Text → Dict Text Text
  parameter name query = elim (Dict.get query name) [ none ↦ [] | some v ↦ (name, v) ∷ [] ]

  unfoldable pub read_response_parameters : ResourceType → Dict Text Text → Outcome P
  read_response_parameters rt query =
      sv.validate_parameters rt
        (parameter (codes "attributes") query ++ parameter (codes "excludedAttributes") query)

  unfoldable pub reference_location : Text → Text → Outcome Text
  unfolding rpartition
  reference_location base_url reference =
      let (endpoint, resource_id) = rpartition reference in
      let relative = rstrip is_slash base_url ++ b'/' ∷ reference in
      if sv.has_scheme reference || starts_with reference (codes "/")
      then ok reference
      else elim (get_resource_type_by_endpoint sv endpoint) [
        | none ↦ ok relative
        | some rt ↦
            if resource_id == [] then ok relative else resource_location base_url rt resource_id
      ]

  abbrev pub published_meta : Text → Meta → Meta
  published_meta location m = record m {
    location = some location;
    version = if etag_supported sv then m.version else none;
  }

  unfoldable pub publish : Text → Resource → Outcome Resource
  unfolding reference_location
  publish base_url r = elim r.meta [
    | none ↦ err assertion_error
    | some m ↦ elim r.id [
      | none ↦ err assertion_error
      | some id ↦ get_resource_type_of sv r >>= λ rt.
          resource_location base_url rt id >>= λ location.
          sv.publish_references (reference_location base_url)
            (record r { meta = some (published_meta location m) })
    ]
  ]

  unfoldable pub resource_response : Resource → Option P → ℕ → Outcome (ScimResponse P)
  resource_response r parameters status = elim r.meta [
    | none ↦ err assertion_error
    | some m ↦ elim m.location [
      | none ↦ err assertion_error
      | some location ↦ ok (
          respond status (some (resource_body r parameters))
            (version_header (codes "ETag") m.version ((codes "Content-Location", location) ∷ [])))
    ]
  ]

  unfoldable pub check_preconditions : Resource → Text → Conditions → Outcome Bool
  check_preconditions r method conditions = elim r.meta [
    | none ↦ err assertion_error
    | some m ↦ check conditions (if etag_supported sv then m.version else none) method
  ]

  unfoldable pub creation_response : Text → Resource → Outcome (ScimResponse P)
  unfolding publish resource_response
  creation_response base_url created = publish base_url created >>= λ r. elim r.meta [
    | none ↦ err assertion_error
    | some m ↦ elim m.location [
      | none ↦ err assertion_error
      | some location ↦ resource_response r none 201 >>= λ result.
          ok (set_header (codes "Location") location result)
    ]
  ]

  -- A response without a body, with the ETag of the resource.
  abbrev pub bare_response : ℕ → Resource → Outcome (ScimResponse P)
  bare_response status r = elim r.meta [
    | none ↦ err assertion_error
    | some m ↦ ok (respond status none (version_header (codes "ETag") m.version []))
  ]

  unfoldable pub query_response : Text → Resource → P → Conditions → Outcome (ScimResponse P)
  unfolding publish check_preconditions resource_response
  query_response base_url resource parameters conditions =
      publish base_url resource >>= λ published.
      check_preconditions published (codes "GET") conditions >>= λ modified.
      if modified
      then resource_response published (some parameters) 200
      else bare_response 304 published

  -- `replacement.replace(current)` gives the replacement completed, if it changes the resource.
  unfoldable pub apply_replacement : Resource → Resource → Conditions → Outcome (Option Resource)
  unfolding check_preconditions
  apply_replacement current replacement conditions =
      check_preconditions current (codes "PUT") conditions >>= λ _.
      sv.replace_with replacement current

  unfoldable pub replacement_response : Text → Resource → P → Outcome (ScimResponse P)
  unfolding publish resource_response
  replacement_response base_url resource parameters =
      publish base_url resource >>= λ published. resource_response published (some parameters) 200

  unfoldable pub apply_patch : Resource → D → Conditions → Outcome (Option Resource)
  unfolding check_preconditions
  apply_patch current patch_op conditions =
      check_preconditions current (codes "PATCH") conditions >>= λ _. sv.patch_with patch_op current

  unfoldable pub patch_response : Text → Resource → P → Outcome (ScimResponse P)
  unfolding publish resource_response
  patch_response base_url resource parameters = publish base_url resource >>= λ published.
      if sv.requests_attributes parameters
      then resource_response published (some parameters) 200
      else bare_response 204 published

  unfoldable pub check_deletion : Resource → Conditions → Outcome (Unit {0})
  unfolding check_preconditions
  check_deletion current conditions =
      check_preconditions current (codes "DELETE") conditions >>= λ _. ok tt

  abbrev pub deletion_response : ScimResponse P
  deletion_response = respond 204 none []
