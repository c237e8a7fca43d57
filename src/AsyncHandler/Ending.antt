-- ===== src/AsyncHandler/Ending.antt =====
-- How long an event loop runs.
use Prim.Native.Nat.{◌*◌}
use scim2_server.AsyncHandler.{Coroutine, done, ImmediateStorage, run, serve_call}
use scim2_server.AsyncHandler.Requested as Async
use scim2_server.Requests.{ScimRequest, ScimResponse}
use scim2_server.Service.{ScimService}
use scim2_server.Base.{
  ℕ, zero, suc, ◌+◌, ◌≤◌, ◌≡◌, refl, List, [], ◌∷◌, map, arith, All, nat_eq, text_eq,
  option_text_eq, length, Outcome,
}
use scim2_server.AsyncHandler.Turns.{Turn, here, there, Loop, idle, turn, run-Loop}
use scim2_server.AsyncHandler.Counted.{AtMost, IsSingle, handle-AtMost}

module _ {P C S : Type 0} (storage : ImmediateStorage P C S) where
  -- The tasks end within so many calls, all together.
  abbrev AllWithin : {A : Type 0} → ℕ → List (Coroutine P C A) → Type 0
  AllWithin n [] = Unit
  AllWithin n (task ∷ tasks) = (k : ℕ) × (l : ℕ) × AtMost k task × AllWithin l tasks × (k + l ≤ n)

  abbrev pub turns :
      {A : Type 0} {s u : S} {tasks tasks' : List (Coroutine P C A)}
      → Loop storage s tasks u tasks'
      → ℕ
  turns (idle s tasks) = 0
  turns (turn tn loop) = suc (turns loop)

  AllWithin-step :
      {A : Type 0} {s t : S} (n : ℕ) {tasks tasks' : List (Coroutine P C A)}
      → Turn storage s t tasks tasks'
      → AllWithin n tasks
      → (m : ℕ) × AllWithin m tasks' × (suc m ≤ n)
  AllWithin-step {s} n (here c k tasks e) (zero, l, within, rest, h) = absurd within
  AllWithin-step {s} n (here c k tasks e) (suc j, l, within, rest, h) =
      (j + l, (j, l, within (serve_call storage c s).0, rest, omega arith), omega arith)
  AllWithin-step n (there task tn) (j, l, within, rest, h) =
      let (m, rest', h') = AllWithin-step l tn rest in
      (j + m, (j, m, within, rest', omega arith), omega arith)

  turns-AllWithin :
      {A : Type 0} {s u : S} (n : ℕ) {tasks tasks' : List (Coroutine P C A)}
      (loop : Loop storage s tasks u tasks')
      → AllWithin n tasks
      → turns loop ≤ n
  turns-AllWithin n (idle s tasks) h = omega arith
  turns-AllWithin n (turn tn loop) h =
      let (m, h', below) = AllWithin-step n tn h in
      let rest = turns-AllWithin m loop h' in omega arith

  -- All tasks have ended.
  abbrev pub AllDone : {A : Type 0} → List (Coroutine P C A) → Type 0
  AllDone [] = Unit
  AllDone {A} (task ∷ tasks) = ((o : Outcome A) × (task ≡ done o)) × AllDone tasks

  Loop-append :
      {A : Type 0} {s t u : S} {tasks tasks' tasks'' : List (Coroutine P C A)}
      (first : Loop storage s tasks t tasks') (rest : Loop storage t tasks' u tasks'')
      → (whole : Loop storage s tasks u tasks'') × (turns whole ≡ turns first + turns rest)
  Loop-append (idle s tasks) rest = (rest, omega arith)
  Loop-append (turn tn first) rest =
      let (whole, e) = Loop-append first rest in (turn tn whole, ground (arith, e))

  Loop-there :
      {A : Type 0} {s u : S} {tasks tasks' : List (Coroutine P C A)} (task : Coroutine P C A)
      → Loop storage s tasks u tasks'
      → Loop storage s (task ∷ tasks) u (task ∷ tasks')
  Loop-there task (idle s tasks) = idle s (task ∷ tasks)
  Loop-there task (turn tn loop) = turn (there task tn) (Loop-there task loop)

  -- The loop ends all tasks when it runs one after the other.
  finish :
      {A : Type 0} (s : S) (tasks : List (Coroutine P C A))
      → (u : S) × (ended : List (Coroutine P C A)) × Loop storage s tasks u ended × AllDone ended
  finish {A} s [] = (s, [], idle s [], tt)
  finish {A} s (task ∷ tasks) =
      let (u, ended, rest, all) = finish (run storage task s).1 tasks in
      let last : Coroutine P C A = done (run storage task s).0 in
      (
        u,
        last ∷ ended,
        (Loop-append (run-Loop storage task s tasks) (Loop-there last rest)).0,
        (((run storage task s).0, refl), all),
      )

module _ {P D J C S : Type 0} (sv : ScimService P D J C) (storage : ImmediateStorage P C S) where
  AllWithin-handle :
      (rs : List ScimRequest)
      → All (IsSingle sv storage) rs
      → AllWithin storage (2 * length rs) (map (Async.handle sv storage) rs)
  AllWithin-handle [] h = tt
  AllWithin-handle (r ∷ rs) (h, hs) =
      (2, 2 * length rs, handle-AtMost sv storage r h, AllWithin-handle rs hs, omega arith)

  -- An event loop over an asynchronous storage whose methods await nothing, which serves requests of which none is a bulk request, in whatever order it runs their calls:
  -- wherever it has got to, it can go on to a state in which every request has its answer or has raised, and all its
  -- turns, those before and those after, are at most two for each request.
  pub Loop-ends :
      (rs : List ScimRequest) {s u : S} {tasks : List (Coroutine P C (ScimResponse P))}
      (loop : Loop storage s (map (Async.handle sv storage) rs) u tasks)
      → All (IsSingle sv storage) rs
      → (v : S) × (ended : List (Coroutine P C (ScimResponse P))) × (rest : Loop storage u tasks v
          ended)
        × AllDone storage ended
        × (turns storage loop + turns storage rest ≤ 2 * length rs)
  Loop-ends rs {u} {tasks} loop h =
      let (v, ended, rest, all) = finish storage u tasks in
      let (whole, e) = Loop-append storage loop rest in
      let bound = turns-AllWithin storage (2 * length rs) whole (AllWithin-handle rs h) in
      (v, ended, rest, all, ground (arith, e, bound))
