-- ===== src/AsyncHandler/Optimistic.antt =====
-- The requests of `AsyncScimHandler` over `AsyncInMemoryStorage` that make one call, or read a
-- resource and then write it, expecting the version that they read.
use scim2_server.AsyncHandler.{Call, Answer, Coroutine, done, await, ◌>>>=◌, awaited}
use scim2_server.AsyncHandler.Guarded.{IsGuarded, answer-IsGuarded}
use scim2_server.Models.{Resource, ResourceType}
use scim2_server.Memory.{Attributes}
use scim2_server.Memory.Writes.{HasVersion}
use scim2_server.Base.{
  ◌≡◌, refl, inl, inr, Option, nat_eq, Text, text_eq, option_text_eq, Eq, Outcome, ok, err,
  Exception, ◌⊎◌,
}

-- A coroutine that ends with its first call.
abbrev pub IsOneCall : {P C X A : Type 0} → (Outcome X → Coroutine P C A) → Type 0
IsOneCall {X} {A} k = (o : Outcome X) → (o' : Outcome A) × (k o ≡ done o')

module _ {B V R : Type 0} ⦃eb : Eq B⦄ ⦃ev : Eq V⦄ (a : Attributes B V R) where
  -- A coroutine that reads a resource, and then writes at most once, expecting the version that it read.
  abbrev pub Reads :
      {P C A : Type 0} (c : Call P C) → (Outcome (Answer c) → Coroutine P C A) → Type 0
  Reads (Call.get rt id p) k =
      ((e : Exception) → k (err e) ≡ done (err e))
      × ((current : Resource) (v : Text) → HasVersion a current v → IsGuarded v (k (ok current)))
  Reads (Call.search rts r p) k = ⊥
  Reads (Call.create rt r) k = ⊥
  Reads (Call.update rt r v) k = ⊥
  Reads (Call.delete rt id v) k = ⊥

  abbrev pub IsOptimistic : {P C A : Type 0} → Coroutine P C A → Type 0
  IsOptimistic (done o) = Unit
  IsOptimistic (await c k) = IsOneCall k ⊎ Reads c k

  pub given-IsOptimistic :
      {P C A B' : Type 0} (o : Outcome A) (f : A → Coroutine P C B')
      → ((x : A) → IsOptimistic (f x))
      → IsOptimistic (done o >>>= f)
  given-IsOptimistic (ok x) f h = h x
  given-IsOptimistic (err e) f h = tt

  done-answer :
      {P C A B' : Type 0} (m : Coroutine P C A) (f : A → Outcome B') (o : Outcome A)
      → m ≡ done o
      → (o' : Outcome B') × ((m >>>= λ x. done (f x)) ≡ done o')
  done-answer m f (ok x) e = (f x, rw e refl)
  done-answer m f (err x) e = (err x, rw e refl)

  answer-Reads :
      {P C A B' : Type 0} (c : Call P C) (k : Outcome (Answer c) → Coroutine P C A)
      (f : A → Outcome B')
      → Reads c k
      → Reads c (λ o. k o >>>= λ x. done (f x))
  answer-Reads (Call.get rt id p) k f (raises, guarded) = (
    (λ e. rw (raises e) refl),
    λ current v has. answer-IsGuarded v (k (ok current)) f (guarded current v has),
  )
  answer-Reads (Call.search rts r p) k f h = h
  answer-Reads (Call.create rt r) k f h = h
  answer-Reads (Call.update rt r v) k f h = h
  answer-Reads (Call.delete rt id v) k f h = h

  pub answer-IsOptimistic :
      {P C A B' : Type 0} (m : Coroutine P C A) (f : A → Outcome B')
      → IsOptimistic m
      → IsOptimistic (m >>>= λ x. done (f x))
  answer-IsOptimistic (done (ok x)) f h = tt
  answer-IsOptimistic (done (err e)) f h = tt
  answer-IsOptimistic (await c k) f (inl single) =
      inl (λ o. let (o', e) = single o in done-answer (k o) f o' e)
  answer-IsOptimistic (await c k) f (inr reads) = inr (answer-Reads c k f reads)

  pub awaited-IsOptimistic : {P C : Type 0} (c : Call P C) → IsOptimistic (awaited c)
  awaited-IsOptimistic c = inl (λ o. (o, refl))

  pub read-IsOptimistic :
      {P C A : Type 0} (rt : ResourceType) (id : Text) (p : Option P)
      (g : Resource → Coroutine P C A)
      → ((current : Resource) (v : Text) → HasVersion a current v → IsGuarded v (g current))
      → IsOptimistic (awaited (Call.get rt id p) >>>= g)
  read-IsOptimistic rt id p g h = inr ((λ e. refl), h)
