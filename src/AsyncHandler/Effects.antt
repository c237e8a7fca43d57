-- ===== src/AsyncHandler/Effects.antt =====
-- What a request of `AsyncScimHandler` does in an event loop over one `AsyncInMemoryStorage`: it takes
-- effect in one turn.
use scim2_server.AsyncHandler.{
  Call, Answer, Coroutine, done, await, ImmediateStorage, run, serve_call,
}
use scim2_server.AsyncHandler.Alone.{async_in_memory}
use scim2_server.AsyncHandler.Turns.{
  Turn, Loop, idle, turn, Turn-call, Turn-task, Loop-done, EndsWith, TakesEffect, EndsWith-map,
  last-Ends,
}
use scim2_server.AsyncHandler.Guarded.{IsGuarded, Expects}
use scim2_server.Models.{Resource, ResourceType}
use scim2_server.Memory.{Attributes, Storage}
use scim2_server.Memory.Store.{get, version_text}
use scim2_server.Memory.Valid.{created, updated, deleted}
use scim2_server.Memory.Search.{search-SameStored}
use scim2_server.Memory.Writes.{HasVersion}
use scim2_server.Memory.Lost.{
  IsVersioned, Calls, same, wrote, read, Calls-trans, Calls-IsVersioned, update-unchanged,
  delete-unchanged, get-found,
}
use scim2_server.Handler.InMemory.{Surroundings, in_memory}
use scim2_server.Handler.{search_page}
use scim2_server.Base.{
  ℕ, ◌≡◌, refl, sym, ap, ◌∙◌, subst, inl, inr, Option, some, List, arith, nat_eq, Text, text_eq,
  option_text_eq, Eq, Outcome, ok, err, Exception, Outcome-cases, get_elem?, ◌⊎◌,
}
use scim2_server.AsyncHandler.Optimistic.{IsOneCall, Reads, IsOptimistic}

failed-ok : {A : Type 0} (e : Exception) (x : A) → err e ≡ ok x → ⊥
failed-ok e x f = cc

Coroutine-cases :
    {P C A : Type 0} (m : Coroutine P C A)
    → ((o : Outcome A) × (m ≡ done o))
      ⊎ (c : Call P C) × (k : Outcome (Answer c) → Coroutine P C A) × (m ≡ await c k)
Coroutine-cases (done o) = inl (o, refl)
Coroutine-cases (await c k) = inr (c, k, refl)

module _ {B V R : Type 0} ⦃eb : Eq B⦄ ⦃ev : Eq V⦄ (a : Attributes B V R) {P C : Type 0}
    (w : Surroundings B V C) where
  abbrev pub shared : ImmediateStorage P C (Storage B V)
  shared = async_in_memory (in_memory a w)

  call-Calls : (s : Storage B V) (c : Call P C) → Calls a s (serve_call shared c s).1
  unfolding search_page
  call-Calls s (Call.get rt id p) = same
  call-Calls s (Call.search rts r p) = read same (search-SameStored a rts (w.query r p) s)
  call-Calls s (Call.create rt r) =
      wrote same (created (w.generate_id s.versions) (w.clock s.versions) rt r)
  call-Calls s (Call.update rt r v) = wrote same (updated (w.clock s.versions) rt r v)
  call-Calls s (Call.delete rt id v) = wrote same (deleted rt id v)

  turn-Calls :
      {A : Type 0} (s t : Storage B V) {tasks tasks' : List (Coroutine P C A)}
      → Turn shared s t tasks tasks'
      → Calls a s t
  turn-Calls s t tn =
      let (c, e) = Turn-call shared tn in subst (λ x. Calls a s x) (sym e) (call-Calls s c)

  -- A guarded call that succeeds finds the resource that was read.
  unchanged :
      (c : Call P C) (rt : ResourceType) (id v : Text) (current : Resource) (s0 s : Storage B V)
      (x : Answer c)
      → Expects v c
      → IsVersioned a s0
      → get s0 rt id ≡ ok current
      → HasVersion a current v
      → Calls a s0 s
      → (serve_call shared c s).0 ≡ ok x
      → get s rt id ≡ ok current
  unchanged (Call.update rt' r x) rt id v current s0 s written expects h e has ws success =
      update-unchanged a (w.clock s.versions) rt rt' id current r written v s0 s h e has ws
        (ground (arith, success, expects))
  unchanged (Call.delete rt' id' x) rt id v current s0 s written expects h e has ws success =
      delete-unchanged a rt rt' id id' current v s0 s h e has ws (ground (arith, success, expects))
  unchanged (Call.get rt' id' p) rt id v current s0 s x expects h e has ws success = absurd expects
  unchanged (Call.search rts r p) rt id v current s0 s x expects h e has ws success = absurd expects
  unchanged (Call.create rt' r) rt id v current s0 s x expects h e has ws success = absurd expects

  awaits-done :
      {A : Type 0} (i : ℕ) (c : Call P C) (k : Outcome (Answer c) → Coroutine P C A) (o : Outcome A)
      (tasks : List (Coroutine P C A))
      → get_elem? tasks i ≡ some (await c k)
      → get_elem? tasks i ≡ some (done o)
      → ⊥
  awaits-done i c k o tasks p q = clash (sym p ∙ q)
    where
      clash : some (await c k) ≡ some (done o) → ⊥
      clash e = cc

  module _ {A : Type 0} (i : ℕ) (result : A) where
    -- The write of a task that has read a resource.
    guarded-EndsWith :
        (c : Call P C) (k : Outcome (Answer c) → Coroutine P C A) (rt : ResourceType) (id v : Text)
        (current : Resource) (s0 : Storage B V) {s u : Storage B V}
        {tasks tasks' : List (Coroutine P C A)}
        → IsGuarded v (await c k)
        → IsVersioned a s0
        → get s0 rt id ≡ ok current
        → HasVersion a current v
        → Calls a s0 s
        → (loop : Loop shared s tasks u tasks') → get_elem? tasks i ≡ some (await c k)
        → get_elem? tasks' i ≡ some (done (ok result))
        → EndsWith shared i
            (ok result)
            (λ b t. (get b rt id ≡ ok current) × (run shared (await c k) b ≡ (ok result, t)))
            loop
    guarded-EndsWith c k rt id v current s0 g h e has ws (idle s tasks) p q =
        absurd (awaits-done i c k (ok result) tasks p q)
    guarded-EndsWith c k rt id v current s0 (expects, (raises, returns)) h e has ws
          (turn {s} {t} {u} {tasks} {tasks'} {tasks''} tn loop) p q =
        elim (Turn-task shared i (await c k) tn p) [
          | inl p' ↦ inr (
              guarded-EndsWith c k rt id v current s0 (expects, (raises, returns)) h e has
                (Calls-trans a ws (turn-Calls s t tn)) loop p' q)
          | inr (m, stepped, p') ↦ elim (Outcome-cases (serve_call shared c s).0) [
            | inr (x, failed) ↦
                let (clash, _, _) =
                  last-Ends shared tasks tasks' i c k m (ok result) (err x) p stepped p'
                    (ap k failed ∙ raises x) loop q in
                absurd (failed-ok x result clash)
            | inl (x, succeeded) ↦
                let (o, last) = returns x in
                let (_, ends, alone) =
                  last-Ends shared tasks tasks' i c k m (ok result) o p stepped p'
                    (ap k succeeded ∙ last) loop q in
                inl (ends, (unchanged c rt id v current s0 s x expects h e has ws succeeded, alone))
          ]
        ]

    -- A task that ends with its first call.
    single-EndsWith :
        (c : Call P C) (k : Outcome (Answer c) → Coroutine P C A) {s u : Storage B V}
        {tasks tasks' : List (Coroutine P C A)}
        → IsOneCall k
        → (loop : Loop shared s tasks u tasks') → get_elem? tasks i ≡ some (await c k)
        → get_elem? tasks' i ≡ some (done (ok result))
        → EndsWith shared i (ok result) (λ b t. run shared (await c k) b ≡ (ok result, t)) loop
    single-EndsWith c k single (idle s tasks) p q = absurd (awaits-done i c k (ok result) tasks p q)
    single-EndsWith c k single (turn {s} {t} {u} {tasks} {tasks'} {tasks''} tn loop) p q =
        elim (Turn-task shared i (await c k) tn p) [
          | inl p' ↦ inr (single-EndsWith c k single loop p' q)
          | inr (m, stepped, p') ↦
              let (o, last) = single (serve_call shared c s).0 in
              let (_, ends, alone) =
                last-Ends shared tasks tasks' i c k m (ok result) o p stepped p' last loop q in
              inl (ends, alone)
        ]

    -- What a task does that has read a resource, in its next turns.
    read-EndsWith :
        (rt : ResourceType) (id : Text) (p : Option P) (k : Outcome Resource → Coroutine P C A)
        (current : Resource) (n : ℕ) (c : Call P C) (k' : Outcome (Answer c) → Coroutine P C A)
        {s u : Storage B V} {tasks tasks' : List (Coroutine P C A)}
        → Reads a (Call.get rt id p) k
        → IsVersioned a s
        → get s rt id ≡ ok current
        → HasVersion a current (version_text n)
        → k (ok current) ≡ await c k'
        → (loop : Loop shared s tasks u tasks') → get_elem? tasks i ≡ some (k (ok current))
        → get_elem? tasks' i ≡ some (done (ok result))
        → EndsWith shared i
            (ok result)
            (λ b t. run shared (await (Call.get rt id p) k) b ≡ (ok result, t))
            loop
    read-EndsWith rt id p k current n c k' {s} (_, guarded) h e has goes_on loop q q' =
        EndsWith-map shared i (ok result)
          (λ b t. (get b rt id ≡ ok current) × (run shared (await c k') b ≡ (ok result, t)))
          (λ b t. run shared (await (Call.get rt id p) k) b ≡ (ok result, t))
          (λ b t (found, alone).
            ap (λ o. run shared (k o) b) found ∙ ap (λ m. run shared m b) goes_on ∙ alone)
          loop
          (guarded-EndsWith c k' rt id (version_text n) current s
            (subst (λ m. IsGuarded (version_text n) m) goes_on
              (guarded current (version_text n) has))
            h e has same loop (q ∙ ap (λ m. some m) goes_on) q')

    get-EndsWith :
        (rt : ResourceType) (id : Text) (p : Option P) (k : Outcome Resource → Coroutine P C A)
        {s u : Storage B V} {tasks tasks' : List (Coroutine P C A)}
        → Reads a (Call.get rt id p) k
        → IsVersioned a s
        → (loop : Loop shared s tasks u tasks')
        → get_elem? tasks i ≡ some (await (Call.get rt id p) k)
        → get_elem? tasks' i ≡ some (done (ok result))
        → EndsWith shared i
            (ok result)
            (λ b t. run shared (await (Call.get rt id p) k) b ≡ (ok result, t))
            loop
    get-EndsWith rt id p k reads h (idle s tasks) q q' =
        absurd (awaits-done i (Call.get rt id p) k (ok result) tasks q q')
    get-EndsWith rt id p k reads h (turn {s} {t} {u} {tasks} {tasks'} {tasks''} tn loop) q q' =
        elim (Turn-task shared i (await (Call.get rt id p) k) tn q) [
          | inl other ↦ inr (
              get-EndsWith rt id p k reads (Calls-IsVersioned a (turn-Calls s t tn) h) loop other
                q')
          | inr (m, (e, e'), next) ↦ elim (Outcome-cases (get s rt id)) [
            | inr (x, failed) ↦
                let (clash, _, _) =
                  last-Ends shared tasks tasks' i (Call.get rt id p) k m (ok result) (err x) q
                    (e, e') next (ap k failed ∙ reads.0 x) loop q' in
                absurd (failed-ok x result clash)
            | inl (current, found) ↦ elim (Coroutine-cases (k (ok current))) [
              | inl (o, last) ↦
                  let (_, ends, alone) =
                    last-Ends shared tasks tasks' i (Call.get rt id p) k m (ok result) o q (e, e')
                      next (ap k found ∙ last) loop q' in
                  inl (ends, alone)
              | inr (c, k', goes_on) ↦
                  let (n, _, has) =
                    h.numbered (some rt.name, id) current (get-found a s rt id current found) in
                  inr (
                    read-EndsWith rt id p k current n c k' reads
                      (subst (λ x. IsVersioned a x) (sym e') h)
                      (subst (λ x. get x rt id ≡ ok current) (sym e') found) has goes_on loop
                      (next ∙ ap (λ x. some x) (e ∙ ap k found)) q')
            ]
          ]
        ]

    await-EndsWith :
        (c : Call P C) (k : Outcome (Answer c) → Coroutine P C A) {s u : Storage B V}
        {tasks tasks' : List (Coroutine P C A)}
        → IsOptimistic a (await c k)
        → IsVersioned a s
        → (loop : Loop shared s tasks u tasks') → get_elem? tasks i ≡ some (await c k)
        → get_elem? tasks' i ≡ some (done (ok result))
        → EndsWith shared i (ok result) (λ b t. run shared (await c k) b ≡ (ok result, t)) loop
    await-EndsWith c k (inl single) h loop q q' = single-EndsWith c k single loop q q'
    await-EndsWith (Call.get rt id p) k (inr reads) h loop q q' =
        get-EndsWith rt id p k reads h loop q q'
    await-EndsWith (Call.search rts r p) k (inr reads) h loop q q' = absurd reads
    await-EndsWith (Call.create rt r) k (inr reads) h loop q q' = absurd reads
    await-EndsWith (Call.update rt r v) k (inr reads) h loop q q' = absurd reads
    await-EndsWith (Call.delete rt id v) k (inr reads) h loop q q' = absurd reads

    pub IsOptimistic-TakesEffect :
        (m : Coroutine P C A) {s u : Storage B V} {tasks tasks' : List (Coroutine P C A)}
        → IsOptimistic a m
        → IsVersioned a s
        → (loop : Loop shared s tasks u tasks') → get_elem? tasks i ≡ some m
        → get_elem? tasks' i ≡ some (done (ok result))
        → TakesEffect shared i (ok result) (λ b t. run shared m b ≡ (ok result, t)) loop
    IsOptimistic-TakesEffect (done o) {s} {u} {tasks} optimistic h loop q q' =
        let same_outcome = the_same (sym (Loop-done shared i o loop q) ∙ q') in
        inl (q ∙ ap (λ x. some (done x)) same_outcome, ap (λ x. (x, s)) same_outcome)
      where
        the_same :
            ◌≡◌ {A = Option (Coroutine P C A)} (some (done o)) (some (done (ok result)))
            → o ≡ ok result
        the_same f = cc
    IsOptimistic-TakesEffect (await c k) optimistic h loop q q' =
        inr (await-EndsWith c k optimistic h loop q q')
