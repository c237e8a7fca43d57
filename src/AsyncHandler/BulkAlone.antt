-- ===== src/AsyncHandler/BulkAlone.antt =====
-- A bulk request of `AsyncScimHandler`, alone on its storage.
use scim2_server.Models.{
  Resource, ResourceType, Method, post, put, patch, delete, BulkOperation, BulkOutcome,
}
use scim2_server.Bulk.Plan.{BulkPlan, stopped, resolve}
use scim2_server.Requests.{ScimRequest}
use scim2_server.Service.{ScimService, ensure_patch_supported}
use scim2_server.Service.Routes.{authorize_bulk_operation}
use scim2_server.Service.BulkSteps.{
  bulk_outcome, bulk_validation_failure, route_bulk_operation, locate_bulk_operation,
}
use scim2_server.AsyncHandler.{
  Call, Answer, Coroutine, done, await, ◌>>>=◌, attempt, awaited, asserting, ImmediateStorage,
  async_search_page, run, serve_call,
}
use scim2_server.AsyncHandler as Async
use scim2_server.Handler.{
  Act, go_on, lift, ◌>>>◌, with_meta, ScimStorage, projection, search_page, handled, when_given,
}
use scim2_server.Handler as Sync
use scim2_server.Base.{
  ℕ, ◌≡◌, refl, ◌∙◌, Option, none, some, List, [], ◌∷◌, nat_eq, Text, text_eq, option_text_eq,
  Outcome, ok, err, get_elem?,
}
use scim2_server.AsyncHandler.Alone.{
  Runs, run-attempt, then-Runs, given-Runs, answer-Runs, handled-Runs, when_given-Runs, if-Runs,
  replace_resource-Runs, patch_resource-Runs, delete_resource-Runs, async_in_memory,
}

module _ {P D J C S : Type 0} (sv : ScimService P D J C) (storage : ScimStorage P C S) where
  apply_method-Runs :
      (m : Method) (rt : ResourceType) (o : BulkOperation)
      → Runs sv storage
          (Async.BulkRun.apply_method sv (async_in_memory storage) m rt o)
          (Sync.apply_method sv storage m rt o)
  apply_method-Runs post rt o =
      answer-Runs sv storage (awaited (Call.create rt (sv.resource_data o)))
        (storage.create rt (sv.resource_data o)) (λ r. ok (some r)) (λ s. refl)
  apply_method-Runs put rt o =
      then-Runs sv storage (awaited (Call.get rt (Sync.id_of sv storage o) none)) _
        (storage.get rt (Sync.id_of sv storage o) none) _ (λ s. refl)
        (λ current.
          answer-Runs sv storage
            (Async.Resources.replace_resource sv (async_in_memory storage) rt current
              (sv.resource_data o) _)
            _ _ (replace_resource-Runs sv storage rt current (sv.resource_data o) _))
  apply_method-Runs patch rt o = given-Runs sv storage (ensure_patch_supported sv) _ _ (λ _.
      answer-Runs sv storage
        (Async.Resources.patch_resource sv (async_in_memory storage) rt (Sync.id_of sv storage o)
          (sv.patch_data o) _)
        _ _ (patch_resource-Runs sv storage rt _ (sv.patch_data o) _))
  apply_method-Runs delete rt o =
      answer-Runs sv storage
        (Async.Resources.delete_resource sv (async_in_memory storage) rt (Sync.id_of sv storage o)
          _)
        _ _ (delete_resource-Runs sv storage rt _ _)

  apply_bulk_operation-Runs :
      (rt : Option ResourceType) (o : BulkOperation)
      → Runs sv storage
          (Async.BulkRun.apply_bulk_operation sv (async_in_memory storage) rt o)
          (Sync.apply_bulk_operation sv storage rt o)
  unfolding Async.BulkRun.apply_bulk_operation Sync.apply_bulk_operation
  apply_bulk_operation-Runs rt o =
      when_given-Runs sv storage rt _ _ _ _ (λ s. refl)
        (λ rt'.
          when_given-Runs sv storage o.method _ _ _ _ (λ s. refl) (λ m. apply_method-Runs m rt' o))

  finish_step-Runs :
      (base_url : Text) (o : BulkOperation) (outcome : BulkOutcome)
      (result : Outcome (Option Resource) × S)
      → (
        Async.BulkRun.finish_step sv (async_in_memory storage) base_url o outcome result.0,
        result.1,
      )
        ≡ Sync.finish_step sv storage base_url o outcome result
  finish_step-Runs base_url o outcome (ok r, s) = refl
  finish_step-Runs base_url o outcome (err e, s) = refl

  run_located-Runs :
      (r : ScimRequest) (rt : Option ResourceType) (o : BulkOperation) (outcome : BulkOutcome)
      → Runs sv storage
          (Async.BulkRun.run_located sv (async_in_memory storage) r rt o outcome)
          (Sync.run_located sv storage r rt o outcome)
  unfolding Async.BulkRun.run_located Sync.run_located
  run_located-Runs r rt o outcome =
      handled-Runs sv storage (authorize_bulk_operation sv r o rt) _ _ _ _ (λ e s. refl)
        (λ _.
          when_given-Runs sv storage (bulk_validation_failure o outcome) _ _ _ _
            (λ s.
              run-attempt (async_in_memory storage)
                (Async.BulkRun.apply_bulk_operation sv (async_in_memory storage) rt o) _ s
              ∙ rw (apply_bulk_operation-Runs rt o s) (
                  finish_step-Runs r.base_url o outcome
                    (Sync.apply_bulk_operation sv storage rt o s)))
            (λ failure s. refl))

  run_bulk_step-Runs :
      (r : ScimRequest) (p : BulkPlan) (n : ℕ) (o : BulkOperation)
      → Runs sv storage
          (Async.BulkRun.run_bulk_step sv (async_in_memory storage) r p n o)
          (Sync.run_bulk_step sv storage r p n o)
  unfolding Async.BulkRun.run_bulk_step Sync.run_bulk_step
  run_bulk_step-Runs r p n o =
      handled-Runs sv storage (route_bulk_operation sv o) _ _ _ _ (λ e s. refl)
        (λ rt.
          handled-Runs sv storage (resolve p n o) _ _ _ _ (λ e s. refl)
            (λ resolved.
              handled-Runs sv storage
                (locate_bulk_operation sv r.base_url rt resolved (bulk_outcome r.base_url o)) _ _ _
                _ (λ e s. refl) (λ located. run_located-Runs r rt resolved located)))

  pub run_steps-Runs :
      (r : ScimRequest) (steps : List ℕ) (p : BulkPlan)
      → Runs sv storage
          (Async.BulkRun.run_steps sv (async_in_memory storage) r steps p)
          (Sync.run_steps sv storage r steps p)
  unfolding Async.BulkRun.run_steps Sync.run_steps
  run_steps-Runs r [] p = λ s. refl
  run_steps-Runs r (n ∷ steps) p =
      if-Runs sv storage (stopped p) _ _ _ _ (λ s. refl)
        (when_given-Runs sv storage (get_elem? p.operations n) _ _ _ _ (λ s. refl)
          (λ o.
            then-Runs sv storage (Async.BulkRun.run_bulk_step sv (async_in_memory storage) r p n o)
              _ _ _ (run_bulk_step-Runs r p n o)
              (λ result. run_steps-Runs r steps (Sync.record_step sv storage p n result))))
