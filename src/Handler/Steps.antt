-- ===== src/Handler/Steps.antt =====
-- The loop of a bulk request.
use scim2_server.Models.{Resource, BulkOutcome}
use scim2_server.Bulk.Plan.{BulkPlan, record_outcome, stopped}
use scim2_server.Requests.{ScimRequest}
use scim2_server.Service.{ScimService}
use scim2_server.Handler.{
  Act, lift, ◌>>>◌, when_given, ScimStorage, run_bulk_step, run_steps, go_on,
}
use scim2_server.Base.{
  get_elem?, ℕ, suc, ◌+◌, ◌≤◌, ◌≡◌, refl, ◌∙◌, subst, Bool, true, false, Option, none, some, List,
  [], ◌∷◌, arith, if◌then◌else◌, nat_eq, text_eq, option_text_eq, Outcome, ok, err, Exception,
  type_error, leb, type_error,
}

record_outcome-errors :
    (p : BulkPlan) (i : ℕ) (result : BulkOutcome) (resource : Option Resource)
    → (record_outcome p i result resource).errors ≤ p.errors + 1
unfolding record_outcome
record_outcome-errors p i result resource = ground arith

record_outcome-limit :
    (p : BulkPlan) (i : ℕ) (result : BulkOutcome) (resource : Option Resource)
    → (record_outcome p i result resource).fail_on_errors ≡ p.fail_on_errors
unfolding record_outcome
record_outcome-limit p i result resource = if-same (leb 400 result.status) _ _ refl
  where
    if-same :
        (b : Bool) (q q' : BulkPlan)
        → q.fail_on_errors ≡ q'.fail_on_errors
        → (if b then q else q').fail_on_errors ≡ q'.fail_on_errors
    if-same true q q' e = e
    if-same false q q' e = refl

stopped-errors :
    (p : BulkPlan) (limit : ℕ)
    → p.fail_on_errors ≡ some (suc limit)
    → stopped p ≡ false
    → p.errors ≤ limit
unfolding stopped
stopped-errors p limit e h = ground (arith, e, h)

module _ {S A : Type 0} (Q : A → Type 0) where
  -- A result of the step, if it gives one, has the property.
  abbrev Gives : Act S A → Type 0
  Gives m = (s : S) (a : A) → (m s).0 ≡ ok a → Q a

  ok-Gives : (a : A) → Q a → Gives (lift (ok a))
  ok-Gives a q s a' h = subst Q (same h) q
    where
      same : ok a ≡ ok a' → a ≡ a'
      same e = cc

  err-Gives : (e : Exception) → Gives (lift (err e))
  err-Gives e s a h = cc

  then-Gives :
      {B : Type 0} (m : Act S B) (f : B → Act S A) → ((b : B) → Gives (f b)) → Gives (m >>> f)
  then-Gives {B} m f hf s a h = after (m s) h
    where
      after : (result : Outcome B × S) → (go_on f result).0 ≡ ok a → Q a
      after (ok b, s') h' = hf b s' a h'
      after (err e, s') h' = cc

  when_given-Gives :
      {B : Type 0} (o : Option B) (m : Act S A) (f : B → Act S A)
      → Gives m
      → ((b : B) → Gives (f b))
      → Gives (when_given o m f)
  when_given-Gives none m f hm hf = hm
  when_given-Gives (some b) m f hm hf = hf b

  if-Gives :
      (b : Bool) (m n : Act S A)
      → (b ≡ true → Gives m)
      → (b ≡ false → Gives n)
      → Gives (if b then m else n)
  if-Gives true m n hm hn = hm refl
  if-Gives false m n hm hn = hn refl

module _ {P D J C S : Type 0} (sv : ScimService P D J C) (storage : ScimStorage P C S) where
  run_steps-Gives :
      (r : ScimRequest) (steps : List ℕ) (p : BulkPlan) (limit : ℕ)
      → p.fail_on_errors ≡ some (suc limit)
      → p.errors ≤ suc limit
      → Gives (λ p'. p'.errors ≤ suc limit) (run_steps sv storage r steps p)
  unfolding run_steps
  run_steps-Gives r [] p limit e le = ok-Gives (λ p'. p'.errors ≤ suc limit) p le
  run_steps-Gives r (i ∷ steps) p limit e le =
      if-Gives (λ p'. p'.errors ≤ suc limit) (stopped p) _ _
        (λ _. ok-Gives (λ p'. p'.errors ≤ suc limit) p le)
        (λ going.
          when_given-Gives (λ p'. p'.errors ≤ suc limit) (get_elem? p.operations i) _ _
            (err-Gives (λ p'. p'.errors ≤ suc limit) type_error)
            (λ o.
              then-Gives (λ p'. p'.errors ≤ suc limit) (run_bulk_step sv storage r p i o) _
                (λ (result, resource).
                  run_steps-Gives r steps (record_outcome p i result resource) limit
                    (record_outcome-limit p i result resource ∙ e)
                    (omega (
                      arith,
                      record_outcome-errors p i result resource,
                      stopped-errors p limit e going,
                    )))))

  -- The loop over the steps of a bulk request ends, if it does not raise, with at most as many errors
  -- as `failOnErrors` says, where this is not 0 and the plan has no more errors to begin with.
  pub run_steps-errors :
      (r : ScimRequest) (steps : List ℕ) (p p' : BulkPlan) (s : S) (limit : ℕ)
      → p.fail_on_errors ≡ some (suc limit)
      → p.errors ≤ suc limit
      → (run_steps sv storage r steps p s).0 ≡ ok p'
      → p'.errors ≤ suc limit
  run_steps-errors r steps p p' s limit e le = run_steps-Gives r steps p limit e le s p'
