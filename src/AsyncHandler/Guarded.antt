-- ===== src/AsyncHandler/Guarded.antt =====
-- The requests of `AsyncScimHandler` over `AsyncInMemoryStorage`, among other tasks that write.
use scim2_server.AsyncHandler.{Call, Coroutine, done, await, ◌>>>=◌, asserting}
use scim2_server.Models.{Meta}
use scim2_server.Base.{
  ◌≡◌, refl, Option, some, nat_eq, Text, text_eq, option_text_eq, Outcome, ok, err, Exception,
}

-- What a coroutine does with the outcome of its last call: it raises what the call raised, and makes
-- no other call.
abbrev pub IsLast : {P C X A : Type 0} → (Outcome X → Coroutine P C A) → Type 0
IsLast {X} {A} k =
    ((e : Exception) → k (err e) ≡ done (err e)) × ((x : X) → (o : Outcome A) × (k (ok x) ≡ done o))

abbrev pub Expects : {P C : Type 0} → Text → Call P C → Type 0
Expects v (Call.update rt r expected) = expected ≡ some v
Expects v (Call.delete rt id expected) = expected ≡ some v
Expects v (Call.get rt id p) = ⊥
Expects v (Call.search rts r c) = ⊥
Expects v (Call.create rt r) = ⊥

-- A coroutine that makes at most one call, a write that expects the version.
abbrev pub IsGuarded : {P C A : Type 0} → Text → Coroutine P C A → Type 0
IsGuarded v (done o) = Unit
IsGuarded v (await c k) = Expects v c × IsLast k

answer-IsLast :
    {P C X A B : Type 0} (k : Outcome X → Coroutine P C A) (f : A → Outcome B)
    → IsLast k
    → IsLast (λ o. k o >>>= λ a. done (f a))
answer-IsLast {P} {C} {X} {A} {B} k f (raises, returns) =
    (λ e. rw (raises e) refl, λ x. let (o, p) = returns x in ends o (k (ok x)) p)
  where
    ends :
        (o : Outcome A) (m : Coroutine P C A)
        → m ≡ done o
        → (o' : Outcome B) × ((m >>>= λ a. done (f a)) ≡ done o')
    ends (ok a) m p = (f a, rw p refl)
    ends (err e) m p = (err e, rw p refl)

pub answer-IsGuarded :
    {P C A B : Type 0} (v : Text) (m : Coroutine P C A) (f : A → Outcome B)
    → IsGuarded v m
    → IsGuarded v (m >>>= λ a. done (f a))
answer-IsGuarded v (done (ok a)) f h = tt
answer-IsGuarded v (done (err e)) f h = tt
answer-IsGuarded v (await c k) f (expects, last) = (expects, answer-IsLast k f last)

pub given-IsGuarded :
    {P C A B : Type 0} (v : Text) (o : Outcome A) (f : A → Coroutine P C B)
    → ((a : A) → IsGuarded v (f a))
    → IsGuarded v (done o >>>= f)
given-IsGuarded v (ok a) f h = h a
given-IsGuarded v (err e) f h = tt

pub asserting-IsGuarded :
    {P C A : Type 0} (v : Text) (o : Option Meta) (m : Meta) (f : Meta → Coroutine P C A)
    → o ≡ some m
    → IsGuarded v (f m)
    → IsGuarded v (asserting o f)
asserting-IsGuarded v o m f e h = rw e h

pub awaited-IsLast : {P C X : Type 0} → IsLast {P = P} {C = C} (λ (o : Outcome X). done o)
awaited-IsLast = (λ e. refl, λ x. (ok x, refl))
