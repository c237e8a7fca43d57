-- ===== src/Handler/Preserves.antt =====
-- What the operations of a storage keep, every request keeps.
use scim2_server.Models.{
  Meta, Resource, ResourceType, Method, post, put, patch, delete, BulkOperation, BulkOutcome,
}
use scim2_server.Conditions.{Conditions}
use scim2_server.Bulk.Plan.{BulkPlan, stopped, resolve}
use scim2_server.Requests.{ScimRequest}
use scim2_server.Service.{ScimService, SearchRequest, ensure_patch_supported}
use scim2_server.Service.Routes.{authorize_bulk_operation}
use scim2_server.Service.Answers.{apply_replacement, apply_patch, check_deletion}
use scim2_server.Service.BulkSteps.{
  bulk_outcome, bulk_validation_failure, route_bulk_operation, locate_bulk_operation,
}
use scim2_server.Handler.{
  with_meta, when_given, handled, Act, go_on, lift, ◌>>>◌, ScimStorage, write_changed,
  replace_resource, patch_current, patch_resource, delete_current, delete_resource, apply_method,
  apply_bulk_operation, finish_step, run_located, run_bulk_step, record_step, run_steps, id_of,
}
use scim2_server.Base.{
  get_elem?, ℕ, Bool, true, false, Option, none, some, List, [], ◌∷◌, if◌then◌else◌, nat_eq, Text,
  text_eq, option_text_eq, Outcome, ok, err, assertion_error, Exception, type_error, type_error,
}

module _ {S : Type 0} (I : S → Type 0) where
  -- A step keeps `I`, whether it succeeds or raises.
  abbrev pub Keeps : {A : Type 0} → Act S A → Type 0
  Keeps m = (s : S) → I s → I (m s).1

  pub go_on-Keeps :
      {A B : Type 0} (f : A → Act S B) (result : Outcome A × S)
      → ((a : A) → Keeps (f a))
      → I result.1
      → I (go_on f result).1
  go_on-Keeps f (ok a, s) h i = h a s i
  go_on-Keeps f (err e, s) h i = i

  pub then-Keeps :
      {A B : Type 0} (m : Act S A) (f : A → Act S B)
      → Keeps m
      → ((a : A) → Keeps (f a))
      → Keeps (m >>> f)
  then-Keeps m f hm hf s i = go_on-Keeps f (m s) hf (hm s i)

  pub lift-Keeps : {A : Type 0} (m : Outcome A) → Keeps (lift m)
  lift-Keeps m s i = i

  -- Behind a step of the service only its value counts.
  pub given-Keeps :
      {A B : Type 0} (m : Outcome A) (f : A → Act S B)
      → ((a : A) → Keeps (f a))
      → Keeps (lift m >>> f)
  given-Keeps m f = then-Keeps (lift m) f (lift-Keeps m)

  pub answer-Keeps :
      {A B : Type 0} (m : Act S A) (f : A → Outcome B) → Keeps m → Keeps (m >>> λ a. lift (f a))
  answer-Keeps m f h = then-Keeps m (λ a. lift (f a)) h (λ a. lift-Keeps (f a))

  -- The operations of a storage keep `I`.
  pub record StorageKeeps {P C : Type 0} (storage : ScimStorage P C S) : Type 0 where
    pub getting : (rt : ResourceType) (id : Text) (p : Option P) → Keeps (storage.get rt id p)
    pub searching :
        (rts : List ResourceType) (r : SearchRequest) (c : Option C)
        → Keeps (storage.search rts r c)
    pub creating : (rt : ResourceType) (r : Resource) → Keeps (storage.create rt r)
    pub updating :
        (rt : ResourceType) (r : Resource) (v : Option Text) → Keeps (storage.update rt r v)
    pub deleting :
        (rt : ResourceType) (id : Text) (v : Option Text) → Keeps (storage.delete rt id v)

  module _ {P D J C : Type 0} (sv : ScimService P D J C) (storage : ScimStorage P C S)
      (keeps : StorageKeeps storage) where
    open keeps use {getting, searching, creating, updating, deleting}

    pub write_changed-Keeps :
        (rt : ResourceType) (current : Resource) (v : Option Text) (o : Option Resource)
        → Keeps (write_changed sv storage rt current v o)
    write_changed-Keeps rt current v none = lift-Keeps (ok current)
    write_changed-Keeps rt current v (some r) = updating rt r v

    pub with_meta-Keeps :
        {A : Type 0} (o : Option Meta) (f : Meta → Act S A)
        → ((m : Meta) → Keeps (f m))
        → Keeps (with_meta o f)
    with_meta-Keeps {A} none f h = lift-Keeps {A = A} (err assertion_error)
    with_meta-Keeps (some m) f h = h m

    pub when_given-Keeps :
        {A B : Type 0} (o : Option A) (m : Act S B) (f : A → Act S B)
        → Keeps m
        → ((a : A) → Keeps (f a))
        → Keeps (when_given o m f)
    when_given-Keeps none m f hm hf = hm
    when_given-Keeps (some a) m f hm hf = hf a

    pub handled-Keeps :
        {A B : Type 0} (o : Outcome A) (g : Exception → Act S B) (f : A → Act S B)
        → ((e : Exception) → Keeps (g e))
        → ((a : A) → Keeps (f a))
        → Keeps (handled o g f)
    handled-Keeps (ok a) g f hg hf = hf a
    handled-Keeps (err e) g f hg hf = hg e

    pub if-Keeps :
        {A : Type 0} (b : Bool) (m n : Act S A) → Keeps m → Keeps n → Keeps (if b then m else n)
    if-Keeps true m n hm hn = hm
    if-Keeps false m n hm hn = hn

    pub replace_resource-Keeps :
        (rt : ResourceType) (current replacement : Resource) (c : Conditions)
        → Keeps (replace_resource sv storage rt current replacement c)
    unfolding replace_resource
    replace_resource-Keeps rt current replacement c = with_meta-Keeps current.meta _ (λ m.
        given-Keeps (apply_replacement sv current replacement c) _
          (write_changed-Keeps rt current m.version))

    pub patch_resource-Keeps :
        (rt : ResourceType) (id : Text) (op : D) (c : Conditions)
        → Keeps (patch_resource sv storage rt id op c)
    unfolding patch_resource
    patch_resource-Keeps rt id op c =
        then-Keeps (storage.get rt id none) (patch_current sv storage rt op c) (getting rt id none)
          (λ current. with_meta-Keeps current.meta _ (λ m.
            given-Keeps (apply_patch sv current op c) _ (write_changed-Keeps rt current m.version)))

    pub delete_resource-Keeps :
        (rt : ResourceType) (id : Text) (c : Conditions)
        → Keeps (delete_resource sv storage rt id c)
    unfolding delete_resource
    delete_resource-Keeps rt id c =
        then-Keeps (storage.get rt id none) (delete_current sv storage rt id c) (getting rt id none)
          (λ current.
            given-Keeps (check_deletion sv current c) _
              (λ _. with_meta-Keeps current.meta _ (λ m. deleting rt id m.version)))

    pub apply_method-Keeps :
        (m : Method) (rt : ResourceType) (o : BulkOperation)
        → Keeps (apply_method sv storage m rt o)
    apply_method-Keeps post rt o =
        then-Keeps (storage.create rt (sv.resource_data o)) _ (creating rt (sv.resource_data o))
          (λ r. lift-Keeps (ok (some r)))
    apply_method-Keeps put rt o =
        then-Keeps (storage.get rt (id_of sv storage o) none) _ (getting rt _ none) (λ current.
          then-Keeps (replace_resource sv storage rt current (sv.resource_data o) _) _
            (replace_resource-Keeps rt current (sv.resource_data o) _)
            (λ r. lift-Keeps (ok (some r))))
    apply_method-Keeps patch rt o = given-Keeps (ensure_patch_supported sv) _ (λ _.
        then-Keeps (patch_resource sv storage rt (id_of sv storage o) (sv.patch_data o) _) _
          (patch_resource-Keeps rt _ (sv.patch_data o) _) (λ r. lift-Keeps (ok (some r))))
    apply_method-Keeps delete rt o =
        then-Keeps (delete_resource sv storage rt (id_of sv storage o) _) _
          (delete_resource-Keeps rt _ _) (λ _. lift-Keeps {A = Option Resource} (ok none))

    pub apply_bulk_operation-Keeps :
        (rt : Option ResourceType) (o : BulkOperation)
        → Keeps (apply_bulk_operation sv storage rt o)
    unfolding apply_bulk_operation
    apply_bulk_operation-Keeps rt o =
        when_given-Keeps rt _ _ (lift-Keeps {A = Option Resource} (err type_error)) (λ rt'.
          when_given-Keeps o.method _ _ (lift-Keeps {A = Option Resource} (err type_error))
            (λ m. apply_method-Keeps m rt' o))

    pub finish_step-Keeps :
        (base_url : Text) (o : BulkOperation) (outcome : BulkOutcome)
        (result : Outcome (Option Resource) × S)
        → I result.1
        → I (finish_step sv storage base_url o outcome result).1
    finish_step-Keeps base_url o outcome (ok r, s) i = i
    finish_step-Keeps base_url o outcome (err e, s) i = i

    pub run_located-Keeps :
        (r : ScimRequest) (rt : Option ResourceType) (o : BulkOperation) (outcome : BulkOutcome)
        → Keeps (run_located sv storage r rt o outcome)
    unfolding run_located
    run_located-Keeps r rt o outcome =
        handled-Keeps (authorize_bulk_operation sv r o rt) _ _ (λ e s i. i)
          (λ _.
            when_given-Keeps (bulk_validation_failure o outcome) _ _
              (λ s i.
                finish_step-Keeps r.base_url o outcome (apply_bulk_operation sv storage rt o s)
                  (apply_bulk_operation-Keeps rt o s i))
              (λ failure s i. i))

    pub run_bulk_step-Keeps :
        (r : ScimRequest) (p : BulkPlan) (n : ℕ) (o : BulkOperation)
        → Keeps (run_bulk_step sv storage r p n o)
    unfolding run_bulk_step
    run_bulk_step-Keeps r p n o =
        handled-Keeps (route_bulk_operation sv o) _ _ (λ e s i. i)
          (λ rt.
            handled-Keeps (resolve p n o) _ _ (λ e s i. i)
              (λ resolved.
                handled-Keeps
                  (locate_bulk_operation sv r.base_url rt resolved (bulk_outcome r.base_url o)) _ _
                  (λ e s i. i) (λ located. run_located-Keeps r rt resolved located)))

    pub run_steps-Keeps :
        (r : ScimRequest) (steps : List ℕ) (p : BulkPlan) → Keeps (run_steps sv storage r steps p)
    unfolding run_steps
    run_steps-Keeps r [] p = lift-Keeps {A = BulkPlan} (ok p)
    run_steps-Keeps r (n ∷ steps) p = if-Keeps (stopped p) _ _ (lift-Keeps {A = BulkPlan} (ok p)) (
        when_given-Keeps (get_elem? p.operations n) _ _ (lift-Keeps {A = BulkPlan} (err type_error))
          (λ o.
            then-Keeps (run_bulk_step sv storage r p n o) _ (run_bulk_step-Keeps r p n o)
              (λ result. run_steps-Keeps r steps (record_step sv storage p n result))))
