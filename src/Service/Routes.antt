-- ===== src/Service/Routes.antt =====
-- What a request acts on, and whether the client may: the routing, the authorization and the limits
-- of scim2_server/service.py.
use scim2_server.Models.{ResourceType, Method, post, put, BulkOperation}
use scim2_server.Routing.{Operation, Target, match}
use scim2_server.Conditions.{Conditions}
use scim2_server.Requests.{ScimRequest, ScimResponse, header, set_header}
use scim2_server.Service.{ScimService, or_empty, resource_type_at}
use scim2_server.Base.{
  ℕ, Bool, true, false, not, Option, none, some, List, [], ◌∷◌, ◌++◌, if◌then◌else◌, nat_eq, Text,
  codes, ◌==◌, text_eq, option_text_eq, rstrip, strip, is_slash, ◌>>=◌, ◌>>◌, Exception, Outcome,
  ok, err, forbidden, runtime_error, assertion_error,
}

-- The values of the enumeration `Operation`.
unfoldable pub value_of_operation : Operation → Text
value_of_operation Operation.service_provider_config = codes "service_provider_config"
value_of_operation Operation.resource_types = codes "resource_types"
value_of_operation Operation.resource_type = codes "resource_type"
value_of_operation Operation.schemas = codes "schemas"
value_of_operation Operation.schema = codes "schema"
value_of_operation Operation.search = codes "search"
value_of_operation Operation.search_with_body = codes "search_with_body"
value_of_operation Operation.create = codes "create"
value_of_operation Operation.query = codes "query"
value_of_operation Operation.replace = codes "replace"
value_of_operation Operation.patch = codes "patch"
value_of_operation Operation.delete = codes "delete"
value_of_operation Operation.bulk = codes "bulk"

abbrev pub same_operation : Operation → Operation → Bool
same_operation a b = value_of_operation a == value_of_operation b

abbrev pub operation_of : Method → Operation
operation_of post = Operation.create
operation_of put = Operation.replace
operation_of Method.patch = Operation.patch
operation_of Method.delete = Operation.delete

unfoldable pub endpoint_of : ResourceType → Outcome Text
endpoint_of rt = elim rt.endpoint [ none ↦ err assertion_error | some e ↦ ok (strip is_slash e) ]

unfoldable pub resource_location : Text → ResourceType → Text → Outcome Text
resource_location base_url rt resource_id = elim rt.endpoint [
  | none ↦ err assertion_error
  | some e ↦ ok (rstrip is_slash base_url ++ b'/' ∷ (strip is_slash e ++ b'/' ∷ resource_id))
]

-- `except ForbiddenException`
abbrev pub is_forbidden : Exception → Bool
is_forbidden forbidden = true
is_forbidden _ = false

-- The body of the loop at the root: a type that is forbidden is left out.
abbrev pub keep_type :
    ResourceType → Outcome (Unit {0}) → Outcome (List ResourceType) → Outcome (List ResourceType)
keep_type rt (ok _) rest = rest >>= λ rts. ok (rt ∷ rts)
keep_type rt (err e) rest = if is_forbidden e then rest else err e

abbrev pub or_forbidden : List ResourceType → Outcome (List ResourceType)
or_forbidden [] = err forbidden
or_forbidden (rt ∷ rts) = ok (rt ∷ rts)

module _ {P D J C : Type 0} (sv : ScimService P D J C) where
  unfoldable pub match_request : ScimRequest → Outcome Target
  match_request r = match (sv.upper r.method) r.path

  unfoldable pub route : ScimRequest → Operation → Outcome Target
  unfolding match_request endpoint_of value_of_operation
  route r operation = match_request r >>= λ target.
      if not (same_operation target.operation operation)
      then err runtime_error
      else if not target.me
      then ok target
      else if same_operation operation Operation.create
      then (sv.me_creation_type r >>= λ rt.
          endpoint_of rt >>= λ e. ok (record target { endpoint = some e }))
      else (sv.me_target r >>= λ found. endpoint_of found.0 >>= λ e.
          ok (record target { endpoint = some e; resource_id = some found.1 }))

  -- A target of `/Me` has an endpoint once it is routed.
  unfoldable pub me_response : ScimRequest → Target → ScimResponse P → Outcome (ScimResponse P)
  unfolding resource_location
  me_response r target response = elim target.resource_id [
    | none ↦ ok response
    | some id ↦
        if target.me
        then (resource_type_at sv (or_empty target.endpoint) >>= λ rt.
            resource_location r.base_url rt id >>= λ location.
            ok (set_header (codes "Location") location response))
        else ok response
  ]

  -- Its method is set where the path of the operation has been routed.
  unfoldable pub authorize_bulk_operation :
      ScimRequest → BulkOperation → Option ResourceType → Outcome (Unit {0})
  unfolding endpoint_of
  authorize_bulk_operation r operation none = ok tt
  authorize_bulk_operation r operation (some rt) = elim operation.method [
    | none ↦ err runtime_error
    | some m ↦ endpoint_of rt >>= λ e.
        sv.authorize r
          (record {
            operation = operation_of m;
            endpoint = some e;
            resource_id = sv.resource_id_of operation;
            me = false;
          })
          rt
  ]

  -- The loop for an endpoint: the first refusal ends it.
  unfoldable pub authorize_all : ScimRequest → Target → List ResourceType → Outcome (Unit {0})
  authorize_all r target [] = ok tt
  authorize_all r target (rt ∷ rts) = sv.authorize r target rt >> authorize_all r target rts

  unfoldable pub keep_authorized :
      ScimRequest → Target → List ResourceType → Outcome (List ResourceType)
  keep_authorized r target [] = ok []
  keep_authorized r target (rt ∷ rts) =
      keep_type rt (sv.authorize r target rt) (keep_authorized r target rts)

  unfoldable pub authorized_types :
      ScimRequest → Target → List ResourceType → Outcome (List ResourceType)
  unfolding authorize_all keep_authorized
  authorized_types r target rts = elim target.endpoint [
    | some _ ↦ authorize_all r target rts >> ok rts
    | none ↦ keep_authorized r target rts >>= or_forbidden
  ]

  unfoldable pub read_conditions : ScimRequest → Conditions
  read_conditions r = record {
    if_match = header sv.lower (codes "If-Match") r;
    if_none_match = header sv.lower (codes "If-None-Match") r;
  }

  unfoldable pub max_body_size : ScimRequest → Option ℕ
  unfolding match_request value_of_operation
  max_body_size r = elim (match_request r) [
    | err _ ↦ some 0
    | ok target ↦
        if not (same_operation target.operation Operation.bulk) then none else elim sv.config.bulk [
          | none ↦ some 0
          | some b ↦ if b.supported then b.max_payload_size else some 0
        ]
  ]

  unfoldable pub searched_types : Option Text → Outcome (List ResourceType)
  searched_types none = ok sv.resource_types
  searched_types (some endpoint) = resource_type_at sv endpoint >>= λ rt. ok (rt ∷ [])
