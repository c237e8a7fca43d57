-- ===== src/AsyncHandler/BulkRun.antt =====
-- The coroutine of a bulk request: its steps run one after the other, each behind its own `try`.
use scim2_server.Models.{
  Resource, ResourceType, Method, post, put, patch, delete, BulkOperation, BulkOutcome,
}
use scim2_server.Bulk.Plan.{BulkPlan, record_outcome, stopped, resolve}
use scim2_server.Requests.{ScimRequest}
use scim2_server.Service.{ScimService, ensure_patch_supported}
use scim2_server.Service.Routes.{authorize_bulk_operation}
use scim2_server.Service.BulkSteps.{
  bulk_outcome, bulk_validation_failure, route_bulk_operation, locate_bulk_operation, bulk_failure,
  bulk_success,
}
use scim2_server.AsyncHandler.{Call, Coroutine, done, ◌>>>=◌, attempt, awaited, ImmediateStorage}
use scim2_server.AsyncHandler.Resources.{replace_resource, patch_resource, delete_resource}
use scim2_server.Handler.{handled, when_given}
use scim2_server.Base.{
  ℕ, Option, none, some, List, [], ◌∷◌, if◌then◌else◌, nat_eq, Text, text_eq, option_text_eq,
  Outcome, ok, err, ◌>>=◌, Exception, type_error, type_error, get_elem?,
}

module _ {P D J C S : Type 0} (sv : ScimService P D J C) (storage : ImmediateStorage P C S) where
  abbrev pub id_of : BulkOperation → Text
  id_of operation = elim (sv.resource_id_of operation) [ none ↦ [] | some id ↦ id ]

  abbrev pub apply_method : Method → ResourceType → BulkOperation → Coroutine P C (Option Resource)
  apply_method post rt operation =
      awaited (Call.create rt (sv.resource_data operation)) >>>= λ r. done (ok (some r))
  apply_method put rt operation = awaited (Call.get rt (id_of operation) none) >>>= λ current.
      replace_resource sv storage rt current (sv.resource_data operation)
        (record { if_match = operation.version; if_none_match = none })
      >>>= λ r. done (ok (some r))
  apply_method patch rt operation = done (ensure_patch_supported sv) >>>= λ _.
      patch_resource sv storage rt (id_of operation) (sv.patch_data operation)
        (record { if_match = operation.version; if_none_match = none })
      >>>= λ r. done (ok (some r))
  apply_method delete rt operation =
      delete_resource sv storage rt (id_of operation)
        (record { if_match = operation.version; if_none_match = none })
      >>>= λ _. done (ok none)

  -- A validated operation has a method, and its path has a resource type.
  unfoldable pub apply_bulk_operation :
      Option ResourceType → BulkOperation → Coroutine P C (Option Resource)
  unfolding replace_resource patch_resource delete_resource
  apply_bulk_operation rt operation =
      when_given rt (done (err type_error)) (λ rt.
        when_given operation.method (done (err type_error)) (λ m. apply_method m rt operation))

  -- What a step gives to `record`.
  abbrev pub StepResult : Type 0
  StepResult = BulkOutcome × Option Resource

  abbrev pub failed : BulkOutcome → Exception → Outcome StepResult
  failed outcome e = ok (bulk_failure sv outcome e, none)

  -- Behind the `try`: the exception becomes an outcome.
  abbrev pub finish_step :
      Text → BulkOperation → BulkOutcome → Outcome (Option Resource) → Outcome StepResult
  finish_step base_url operation outcome (err e) = failed outcome e
  finish_step base_url operation outcome (ok resource) =
      bulk_success sv base_url operation outcome resource >>= λ result. ok (result, resource)

  -- From `authorize_bulk_operation` on, for an operation that is resolved and located.
  unfoldable pub run_located :
      ScimRequest → Option ResourceType → BulkOperation → BulkOutcome → Coroutine P C StepResult
  unfolding apply_bulk_operation
  run_located r rt operation outcome =
      handled (authorize_bulk_operation sv r operation rt) (λ e. done (failed outcome e))
        (λ _.
          when_given (bulk_validation_failure operation outcome)
            (attempt (apply_bulk_operation rt operation)
              (λ result. done (finish_step r.base_url operation outcome result)))
            (λ failure. done (ok (failure, none))))

  unfoldable pub run_bulk_step :
      ScimRequest → BulkPlan → ℕ → BulkOperation → Coroutine P C StepResult
  unfolding run_located
  run_bulk_step r p i operation =
      let outcome = bulk_outcome r.base_url operation in
      handled (route_bulk_operation sv operation) (λ e. done (failed outcome e))
        (λ rt.
          handled (resolve p i operation) (λ e. done (failed outcome e))
            (λ resolved.
              handled (locate_bulk_operation sv r.base_url rt resolved outcome)
                (λ e. done (failed outcome e)) (λ located. run_located r rt resolved located)))

  abbrev pub record_step : BulkPlan → ℕ → StepResult → BulkPlan
  record_step p i (result, resource) = record_outcome p i result resource

  -- `for step in plan`, with the iterator of the plan. Each step is a position of an operation.
  unfoldable pub run_steps : ScimRequest → List ℕ → BulkPlan → Coroutine P C BulkPlan
  unfolding run_bulk_step
  run_steps r [] p = done (ok p)
  run_steps r (i ∷ steps) p =
      if stopped p
      then done (ok p)
      else when_given (get_elem? p.operations i) (done (err type_error)) (λ operation.
        run_bulk_step r p i operation >>>= λ result. run_steps r steps (record_step p i result))
