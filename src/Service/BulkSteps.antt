-- ===== src/Service/BulkSteps.antt =====
-- The steps of a bulk request that a service takes around the storage (scim2_server/service.py).
use scim2_server.Models.{
  Resource, ResourceType, Method, post, put, patch, delete, BulkOperation, BulkOutcome, is_post,
}
use scim2_server.Routing.{Target, match}
use scim2_server.Routing as Routing
use scim2_server.Bulk.Plan.{BulkPlan, plan, outcomes}
use scim2_server.Requests.{ScimResponse, bulk_body, respond}
use scim2_server.Service.{
  ScimService, or_empty, resource_type_at, ensure_supported, ensure_bulk_payload_size, ensure_json,
}
use scim2_server.Service.Routes.{
  resource_location, same_operation, value_of_operation, operation_of,
}
use scim2_server.Service.Answers.{publish}
use scim2_server.Service.Discovery.{error_of}
use scim2_server.Base.{
  ℕ, Bool, false, not, ◌||◌, Option, none, some, List, [], ◌∷◌, ◌++◌, ltb, if◌then◌else◌, length,
  nat_eq, Text, codes, text_eq, option_text_eq, lstrip, rstrip, is_slash, ◌>>=◌, ◌>>◌, raise_if,
  Exception, Outcome, ok, err, invalid_value, not_implemented, payload_too_large, assertion_error,
}

-- The values of `BulkOperation.Method`
abbrev pub method_text : Method → Text
method_text post = codes "POST"
method_text put = codes "PUT"
method_text patch = codes "PATCH"
method_text delete = codes "DELETE"

-- `BULK_SUCCESS_STATUS`
abbrev pub success_status : Method → ℕ
success_status post = 201
success_status put = 200
success_status patch = 200
success_status delete = 204

-- `operation in BULK_OPERATIONS.values()`
abbrev pub is_bulk_operation : Routing.Operation → Bool
is_bulk_operation o =
    same_operation o (operation_of post)
    || same_operation o (operation_of put)
    || same_operation o (operation_of patch)
    || same_operation o (operation_of delete)

-- An outcome without its status, which is 0 here until it is known.
unfoldable pub bulk_outcome : Text → BulkOperation → BulkOutcome
bulk_outcome base_url operation = record {
  method = operation.method;
  bulk_id = operation.bulk_id;
  location =
      if is_post operation.method
      then none
      else some (
          rstrip is_slash base_url
          ++ b'/' ∷ lstrip is_slash (elim operation.path [ none ↦ [] | some path ↦ path ]));
  version = none;
  status = 0;
  response = none;
}

-- Each operation has its validation error, if any, as its response.
unfoldable pub bulk_validation_failure : BulkOperation → BulkOutcome → Option BulkOutcome
bulk_validation_failure operation outcome = elim operation.response [
  | none ↦ none
  | some e ↦ some (record outcome { status = operation.status; response = some e })
]

module _ {P D J C : Type 0} (sv : ScimService P D J C) where
  abbrev pub over_limit : Option ℕ → List BulkOperation → Bool
  over_limit none operations = false
  over_limit (some max_operations) operations = ltb max_operations (length operations)

  unfoldable pub read_bulk : List ℕ → Option Text → Outcome BulkPlan
  read_bulk body content_type = elim sv.config.bulk [
    | none ↦ err not_implemented
    | some bulk ↦
        ensure_supported (some bulk.supported)
        >> ensure_bulk_payload_size sv (length body)
        >> ensure_json sv content_type
        >> sv.validate_bulk body
        >>= λ request.
            raise_if (over_limit bulk.max_operations request.0) payload_too_large
            >> ok (plan request.0 request.1)
  ]

  abbrev pub located_type : Target → Outcome (Option ResourceType)
  located_type target =
      raise_if (target.me || not (is_bulk_operation target.operation)) invalid_value
      >> resource_type_at sv (or_empty target.endpoint)
      >>= λ rt. ok (some rt)

  -- A target that is not `/Me`, of one of these operations, has an endpoint.
  unfoldable pub route_bulk_operation : BulkOperation → Outcome (Option ResourceType)
  unfolding value_of_operation
  route_bulk_operation operation = elim operation.method [
    | none ↦ ok none
    | some m ↦ elim operation.path [
      | none ↦ ok none
      | some path ↦ match (method_text m) path >>= located_type
    ]
  ]

  abbrev pub not_empty : Option Text → Option Text
  not_empty none = none
  not_empty (some []) = none
  not_empty (some (c ∷ s)) = some (c ∷ s)

  unfoldable pub locate_bulk_operation :
      Text → Option ResourceType → BulkOperation → BulkOutcome → Outcome BulkOutcome
  locate_bulk_operation base_url none operation outcome = ok outcome
  locate_bulk_operation base_url (some rt) operation outcome =
      elim (not_empty (sv.resource_id_of operation)) [
        | none ↦ ok outcome
        | some id ↦
            if is_post operation.method
            then ok outcome
            else resource_location base_url rt id >>= λ location.
                ok (record outcome { location = some location })
      ]

  unfoldable pub bulk_failure : BulkOutcome → Exception → BulkOutcome
  unfolding error_of
  bulk_failure outcome e = record outcome {
    status = error_of sv e;
    response = some (error_of sv e);
  }

  abbrev pub with_resource : BulkOutcome → Resource → Outcome BulkOutcome
  with_resource outcome published = elim published.meta [
    | none ↦ err assertion_error
    | some m ↦ ok (record outcome { location = m.location; version = m.version })
  ]

  unfoldable pub bulk_success :
      Text → BulkOperation → BulkOutcome → Option Resource → Outcome BulkOutcome
  unfolding publish
  bulk_success base_url operation outcome resource = elim operation.method [
    | none ↦ err assertion_error
    | some m ↦
        let succeeded : BulkOutcome = record outcome { status = success_status m } in
        elim resource [
          | none ↦ ok succeeded
          | some r ↦ publish sv base_url r >>= with_resource succeeded
        ]
  ]

  unfoldable pub bulk_response : BulkPlan → ScimResponse P
  bulk_response p = respond 200 (some (bulk_body (outcomes p))) []
