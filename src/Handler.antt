-- ===== src/Handler.antt =====
-- scim2_server/handler.py: `ScimHandler`, which calls the steps of a service and a storage in turn.
pub mod Requested
mod Conditional
mod Steps
mod Preserves
pub mod Kept
pub mod InMemory
pub mod Tests
use scim2_server.Models.{
  Meta, Resource, ResourceType, Method, post, put, patch, delete, BulkOperation, BulkOutcome,
}
use scim2_server.Conditions.{Conditions}
use scim2_server.Bulk.Plan.{BulkPlan, record_outcome, stopped, resolve}
use scim2_server.Requests.{ScimRequest, ScimResponse, header}
use scim2_server.Service.{
  ScimService, SearchRequest, PaginationMethod, cursor, ensure_patch_supported,
}
use scim2_server.Service.Routes.{authorize_bulk_operation}
use scim2_server.Service.Answers.{apply_replacement, apply_patch, check_deletion}
use scim2_server.Service.Search.{SearchPage, pages_by}
use scim2_server.Service.BulkSteps.{
  bulk_outcome, bulk_validation_failure, route_bulk_operation, locate_bulk_operation, bulk_failure,
  bulk_success, read_bulk, bulk_response,
}
use scim2_server.Base.{
  ℕ, zero, suc, ◌+◌, ◌-◌, ◌≤◌, ◌<◌, min, String, ◌≡◌, refl, sym, ap, ◌∙◌, subst, ◌≢◌, ◌↔◌, ◌⊎◌, inl,
  inr, Bool, true, false, not, ◌&&◌, ◌||◌, Option, none, some, List, [], ◌∷◌, ◌++◌, map, arith, ltb,
  leb, nat_beq, if◌then◌else◌, ltb→lt, nat_beq_iff, Bool-cases, Option-cases, length, get_elem?,
  take, drop, length-append, keep, All, Elem, All-elem, contains, nat_eq, list_beq, list_beq_iff,
  option_beq, option_beq_iff, ==_refl, Text, codes, ◌==◌, text_beq, text_beq_iff, ==_iff, text_eq,
  option_text_eq, Eq, lstrip, strip_before, rstrip, strip, is_slash, is_space, cons_head, split,
  join, text_ltb, sorted_set, starts_with, ◌>>=◌, ◌>>◌, raise_if, >>=-eq-ok, Outcome-cases,
  Exception, Outcome, ok, err, not_found, invalid_value, conflict, precondition_failed, uniqueness,
  not_implemented, forbidden, unauthorized, payload_too_large, invalid_syntax, invalid_cursor,
  invalid_count, expired_cursor, unsupported_media_type, method_not_allowed, scim_error,
  runtime_error, value_error, type_error, assertion_error,
}

-- A step on a storage: it may raise, and what it wrote before stays.
abbrev pub Act : Type 0 → Type 0 → Type 0
Act S A = S → Outcome A × S

abbrev pub go_on : {S A B : Type 0} → (A → Act S B) → Outcome A × S → Outcome B × S
go_on f (ok a, s) = f a s
go_on f (err e, s) = (err e, s)

infixl 4 ◌>>>◌
abbrev pub ◌>>>◌ : {S A B : Type 0} → Act S A → (A → Act S B) → Act S B
(m >>> f) s = go_on f (m s)

-- A step of the service, which leaves the storage alone.
abbrev pub lift : {S A : Type 0} → Outcome A → Act S A
lift m s = (m, s)

-- `assert resource.meta is not None`, and the code behind it.
abbrev pub with_meta : {S A : Type 0} → Option Meta → (Meta → Act S A) → Act S A
with_meta none f = lift (err assertion_error)
with_meta (some m) f = f m

-- `except Exception`, and the code behind a step that did not raise.
abbrev pub handled : {A B : Type 0} → Outcome A → (Exception → B) → (A → B) → B
handled (ok a) raised f = f a
handled (err e) raised f = raised e

abbrev pub when_given : {A B : Type 0} → Option A → B → (A → B) → B
when_given none missing f = missing
when_given (some a) missing f = f a

-- `ScimStorage` of scim2_server/storage.py, with the flags that its subclasses have. `P` is
-- `ResponseParameters` and `C` the position of a page.
pub record ScimStorage (P C S : Type 0) : Type 0 where
  pub get : ResourceType → Text → Option P → Act S Resource
  pub search : List ResourceType → SearchRequest → Option C → Act S (SearchPage C)
  pub create : ResourceType → Resource → Act S Resource
  pub update : ResourceType → Resource → Option Text → Act S Resource
  pub delete : ResourceType → Text → Option Text → Act S (Unit {0})
  pub supports_cursors : Bool
  pub search_takes_position : Bool
  pub get_takes_response_parameters : Bool

-- `projection` of scim2_server/storage.py
abbrev pub projection : {P C S : Type 0} → ScimStorage P C S → P → Option P
projection storage parameters =
    if storage.get_takes_response_parameters then some parameters else none

-- `search_page` of scim2_server/storage.py, for a storage whose `search` gives a page.
unfoldable pub search_page :
    {P C S : Type 0}
    → ScimStorage P C S
    → List ResourceType
    → SearchRequest
    → Option C
    → Act S (SearchPage C)
search_page storage rts request position =
    storage.search rts request (if storage.search_takes_position then position else none)

module _ {P D J C S : Type 0} (sv : ScimService P D J C) (storage : ScimStorage P C S) where
  -- `_check_cursors`
  unfoldable pub check_cursors : Outcome (Unit {0})
  check_cursors =
      raise_if
        (pages_by sv cursor && not (storage.supports_cursors && storage.search_takes_position))
        type_error

  -- Write the new state of a resource, or answer the current one when there is none.
  abbrev pub write_changed :
      ResourceType → Resource → Option Text → Option Resource → Act S Resource
  write_changed rt current version none = lift (ok current)
  write_changed rt current version (some r) = storage.update rt r version

  unfoldable pub replace_resource : ResourceType → Resource → Resource → Conditions → Act S Resource
  replace_resource rt current replacement conditions = with_meta current.meta (λ m.
      lift (apply_replacement sv current replacement conditions)
      >>> write_changed rt current m.version)

  abbrev pub patch_current : ResourceType → D → Conditions → Resource → Act S Resource
  patch_current rt patch_op conditions current = with_meta current.meta (λ m.
      lift (apply_patch sv current patch_op conditions) >>> write_changed rt current m.version)

  unfoldable pub patch_resource : ResourceType → Text → D → Conditions → Act S Resource
  patch_resource rt id patch_op conditions =
      storage.get rt id none >>> patch_current rt patch_op conditions

  abbrev pub delete_current : ResourceType → Text → Conditions → Resource → Act S (Unit {0})
  delete_current rt id conditions current = lift (check_deletion sv current conditions) >>> λ _.
      with_meta current.meta (λ m. storage.delete rt id m.version)

  unfoldable pub delete_resource : ResourceType → Text → Conditions → Act S (Unit {0})
  delete_resource rt id conditions = storage.get rt id none >>> delete_current rt id conditions

  abbrev pub id_of : BulkOperation → Text
  id_of operation = elim (sv.resource_id_of operation) [ none ↦ [] | some id ↦ id ]

  abbrev pub apply_method : Method → ResourceType → BulkOperation → Act S (Option Resource)
  apply_method post rt operation =
      storage.create rt (sv.resource_data operation) >>> λ r. lift (ok (some r))
  apply_method put rt operation = storage.get rt (id_of operation) none >>> λ current.
      replace_resource rt current (sv.resource_data operation)
        (record { if_match = operation.version; if_none_match = none })
      >>> λ r. lift (ok (some r))
  apply_method patch rt operation = lift (ensure_patch_supported sv) >>> λ _.
      patch_resource rt (id_of operation) (sv.patch_data operation)
        (record { if_match = operation.version; if_none_match = none })
      >>> λ r. lift (ok (some r))
  apply_method delete rt operation =
      delete_resource rt (id_of operation)
        (record { if_match = operation.version; if_none_match = none })
      >>> λ _. lift (ok none)

  -- A validated operation has a method, and its path has a resource type.
  unfoldable pub apply_bulk_operation :
      Option ResourceType → BulkOperation → Act S (Option Resource)
  unfolding replace_resource patch_resource delete_resource
  apply_bulk_operation rt operation =
      when_given rt (lift (err type_error)) (λ rt.
        when_given operation.method (lift (err type_error)) (λ m. apply_method m rt operation))

  -- What a step gives to `record`.
  abbrev pub StepResult : Type 0
  StepResult = BulkOutcome × Option Resource

  abbrev pub failed : BulkOutcome → Exception → Outcome StepResult
  failed outcome e = ok (bulk_failure sv outcome e, none)

  -- Behind the `try`: the exception becomes an outcome, and what the storage did stays.
  abbrev pub finish_step :
      Text → BulkOperation → BulkOutcome → Outcome (Option Resource) × S → Outcome StepResult × S
  finish_step base_url operation outcome (err e, s) = (failed outcome e, s)
  finish_step base_url operation outcome (ok resource, s) =
      (bulk_success sv base_url operation outcome resource >>= λ result. ok (result, resource), s)

  -- From `authorize_bulk_operation` on, for an operation that is resolved and located.
  unfoldable pub run_located :
      ScimRequest → Option ResourceType → BulkOperation → BulkOutcome → Act S StepResult
  unfolding apply_bulk_operation
  run_located r rt operation outcome =
      handled (authorize_bulk_operation sv r operation rt) (λ e. lift (failed outcome e))
        (λ _.
          when_given (bulk_validation_failure operation outcome)
            (λ s. finish_step r.base_url operation outcome (apply_bulk_operation rt operation s))
            (λ failure. lift (ok (failure, none))))

  unfoldable pub run_bulk_step : ScimRequest → BulkPlan → ℕ → BulkOperation → Act S StepResult
  unfolding run_located
  run_bulk_step r p i operation =
      let outcome = bulk_outcome r.base_url operation in
      handled (route_bulk_operation sv operation) (λ e. lift (failed outcome e))
        (λ rt.
          handled (resolve p i operation) (λ e. lift (failed outcome e))
            (λ resolved.
              handled (locate_bulk_operation sv r.base_url rt resolved outcome)
                (λ e. lift (failed outcome e)) (λ located. run_located r rt resolved located)))

  abbrev pub record_step : BulkPlan → ℕ → StepResult → BulkPlan
  record_step p i (result, resource) = record_outcome p i result resource

  -- `for step in plan`, with the iterator of the plan. Each step is a position of an operation.
  unfoldable pub run_steps : ScimRequest → List ℕ → BulkPlan → Act S BulkPlan
  unfolding run_bulk_step
  run_steps r [] p = lift (ok p)
  run_steps r (i ∷ steps) p =
      if stopped p
      then lift (ok p)
      else when_given (get_elem? p.operations i) (lift (err type_error)) (λ operation.
        run_bulk_step r p i operation >>> λ result. run_steps r steps (record_step p i result))
