-- ===== src/AsyncHandler/Turns.antt =====
-- The event loop that runs the coroutines of several requests over one storage: it picks any task
-- that awaits a call, and runs this call.
use scim2_server.AsyncHandler.{
  Call, Answer, Coroutine, done, await, ImmediateStorage, run, serve_call,
}
use scim2_server.Base.{
  ℕ, zero, suc, ◌≡◌, refl, sym, ap, ◌∙◌, subst, inl, inr, Option, some, List, ◌∷◌, arith, nat_eq,
  text_eq, option_text_eq, Outcome, get_elem?, ◌⊎◌, some-injective,
}

module _ {P C S : Type 0} (storage : ImmediateStorage P C S) where
  -- One task runs one call, up to its next `await`.
  pub data Turn {A : Type 0} (s t : S)
      : List (Coroutine P C A) → List (Coroutine P C A) → Type 0 where
    here :
        (c : Call P C) (k : Outcome (Answer c) → Coroutine P C A) (tasks : List (Coroutine P C A))
        → t ≡ (serve_call storage c s).1
        → Turn s t (await c k ∷ tasks) (k (serve_call storage c s).0 ∷ tasks)
    there :
        (task : Coroutine P C A) {tasks tasks' : List (Coroutine P C A)}
        → Turn s t tasks tasks'
        → Turn s t (task ∷ tasks) (task ∷ tasks')

  -- The loop, from a state of the storage and of the tasks to another.
  pub data Loop {A : Type 0}
      : S → List (Coroutine P C A) → S → List (Coroutine P C A) → Type 0 where
    idle : (s : S) (tasks : List (Coroutine P C A)) → Loop s tasks s tasks
    turn :
        {s t u : S} {tasks tasks' tasks'' : List (Coroutine P C A)}
        → Turn s t tasks tasks'
        → Loop t tasks' u tasks''
        → Loop s tasks u tasks''

  pub Turn-call :
      {A : Type 0} {s t : S} {tasks tasks' : List (Coroutine P C A)}
      → Turn s t tasks tasks'
      → (c : Call P C) × (t ≡ (serve_call storage c s).1)
  Turn-call (here c k tasks e) = (c, e)
  Turn-call (there task tn) = Turn-call tn

  -- The first task may run alone, up to its end.
  pub run-Loop :
      {A : Type 0} (task : Coroutine P C A) (s : S) (tasks : List (Coroutine P C A))
      → Loop s (task ∷ tasks) (run storage task s).1 (done (run storage task s).0 ∷ tasks)
  run-Loop (done o) s tasks = idle s (done o ∷ tasks)
  run-Loop (await c k) s tasks =
      turn (here c k tasks refl)
        (run-Loop (k (serve_call storage c s).0) (serve_call storage c s).1 tasks)

  -- A task that runs its call, which brings the storage from a state to another.
  abbrev pub Stepped : {A : Type 0} → Coroutine P C A → S → Coroutine P C A → S → Type 0
  Stepped (done o) s m t = ⊥
  Stepped (await c k) s m t = (m ≡ k (serve_call storage c s).0) × (t ≡ (serve_call storage c s).1)

  -- A turn is one of a given task, or of another.
  pub Turn-task :
      {A : Type 0} {s t : S} (i : ℕ) (m : Coroutine P C A) {tasks tasks' : List (Coroutine P C A)}
      → Turn s t tasks tasks'
      → get_elem? tasks i ≡ some m
      → (get_elem? tasks' i ≡ some m)
        ⊎ (m' : Coroutine P C A) × Stepped m s m' t × (get_elem? tasks' i ≡ some m')
  Turn-task {s} {t} zero m (here c k tasks e) p = inr (
    k (serve_call storage c s).0,
    subst (λ x. Stepped x s (k (serve_call storage c s).0) t) (some-injective p) (refl, e),
    refl,
  )
  Turn-task (suc i) m (here c k tasks e) p = inl p
  Turn-task zero m (there task {tasks} {tasks'} tn) p = inl p
  Turn-task (suc i) m (there task {tasks} {tasks'} tn) p = Turn-task i m tn p

  -- A task that has ended stays as it is.
  pub Loop-done :
      {A : Type 0} {s u : S} {tasks tasks' : List (Coroutine P C A)} (i : ℕ) (o : Outcome A)
      → Loop s tasks u tasks'
      → get_elem? tasks i ≡ some (done o)
      → get_elem? tasks' i ≡ some (done o)
  Loop-done i o (idle s tasks) p = p
  Loop-done i o (turn tn loop) p = elim (Turn-task i (done o) tn p) [
    | inl p' ↦ Loop-done i o loop p'
    | inr (m', stepped, p') ↦ absurd stepped
  ]

  -- A turn of a task, with which it ends.
  abbrev pub Ends :
      {A : Type 0}
      → ℕ
      → Outcome A
      → S
      → List (Coroutine P C A)
      → S
      → List (Coroutine P C A)
      → Type 0
  Ends {A} i o s tasks t tasks' =
      (m : Coroutine P C A) × (get_elem? tasks i ≡ some m)
      × Stepped m s (done o) t
      × (get_elem? tasks' i ≡ some (done o))

  -- One turn of the loop, which is one of the task, ends the task, and does what `Does` says.
  abbrev pub EndsWith :
      {A : Type 0} {s u : S} {tasks tasks' : List (Coroutine P C A)}
      → ℕ
      → Outcome A
      → (S → S → Type 0)
      → Loop s tasks u tasks'
      → Type 0
  EndsWith i o does (idle s tasks) = ⊥
  EndsWith i o does (turn {s} {t} {u} {tasks} {tasks'} {tasks''} tn loop) =
      Ends i o s tasks t tasks' × does s t ⊎ EndsWith i o does loop

  -- The task takes effect at once: in the turn that ends it, or before the loop when it makes no call.
  abbrev pub TakesEffect :
      {A : Type 0} {s u : S} {tasks tasks' : List (Coroutine P C A)}
      → ℕ
      → Outcome A
      → (S → S → Type 0)
      → Loop s tasks u tasks'
      → Type 0
  TakesEffect {A} {s} {u} {tasks} i o does loop =
      (get_elem? tasks i ≡ some (done o)) × does s s ⊎ EndsWith i o does loop

  pub EndsWith-map :
      {A : Type 0} {s u : S} {tasks tasks' : List (Coroutine P C A)} (i : ℕ) (o : Outcome A)
      (does does' : S → S → Type 0)
      → ((s t : S) → does s t → does' s t)
      → (loop : Loop s tasks u tasks') → EndsWith i o does loop
      → EndsWith i o does' loop
  EndsWith-map i o does does' f (idle s tasks) h = h
  EndsWith-map i o does does' f (turn {s} {t} tn loop) (inl (ends, d)) = inl (ends, f s t d)
  EndsWith-map i o does does' f (turn tn loop) (inr h) = inr (EndsWith-map i o does does' f loop h)

  pub TakesEffect-map :
      {A : Type 0} {s u : S} {tasks tasks' : List (Coroutine P C A)} (i : ℕ) (o : Outcome A)
      (does does' : S → S → Type 0)
      → ((s t : S) → does s t → does' s t)
      → (loop : Loop s tasks u tasks') → TakesEffect i o does loop
      → TakesEffect i o does' loop
  TakesEffect-map {A} {s} i o does does' f loop (inl (ended, d)) = inl (ended, f s s d)
  TakesEffect-map i o does does' f loop (inr h) = inr (EndsWith-map i o does does' f loop h)

  -- A task that ends with the call it awaits: it does what it does alone.
  pub last-Ends :
      {A : Type 0} {s t u : S} (tasks tasks' : List (Coroutine P C A))
      {tasks'' : List (Coroutine P C A)} (i : ℕ) (c : Call P C)
      (k : Outcome (Answer c) → Coroutine P C A) (m : Coroutine P C A) (o o' : Outcome A)
      → get_elem? tasks i ≡ some (await c k)
      → Stepped (await c k) s m t
      → get_elem? tasks' i ≡ some m
      → k (serve_call storage c s).0 ≡ done o'
      → Loop t tasks' u tasks''
      → get_elem? tasks'' i ≡ some (done o)
      → (o' ≡ o) × Ends i o s tasks t tasks' × (run storage (await c k) s ≡ (o, t))
  last-Ends {A} {s} {t} {u} tasks tasks' i c k m o o' p (e, e') p' last loop q =
      let now : get_elem? tasks' i ≡ some (done o') = p' ∙ ap (λ x. some x) (e ∙ last) in
      let same : o' ≡ o = the_same (sym (Loop-done i o' loop now) ∙ q) in
      (
        same,
        (
          await c k,
          p,
          (ap (λ x. done x) (sym same) ∙ sym last, e'),
          now ∙ ap (λ x. some (done x)) same,
        ),
        rw last (ground (arith, same, e')),
      )
    where
      the_same : ◌≡◌ {A = Option (Coroutine P C A)} (some (done o')) (some (done o)) → o' ≡ o
      the_same f = cc
