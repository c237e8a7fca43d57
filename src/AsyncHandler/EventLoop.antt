-- ===== src/AsyncHandler/EventLoop.antt =====
-- The event loop that runs the coroutines of several requests over one `AsyncInMemoryStorage`: it
-- picks any task that awaits a call, and runs this call.
use scim2_server.AsyncHandler.{Call, Coroutine, done, run, serve_call}
use scim2_server.AsyncHandler.Requested as Async
use scim2_server.AsyncHandler.Turns.{Loop, idle, turn, Turn-call, TakesEffect, TakesEffect-map}
use scim2_server.AsyncHandler.Refines.{handle-Runs}
use scim2_server.AsyncHandler.Effects.{shared, IsOptimistic-TakesEffect}
use scim2_server.AsyncHandler.Atomic.{handle-IsOptimistic}
use scim2_server.Routing.{Operation, Target}
use scim2_server.Requests.{ScimRequest, ScimResponse}
use scim2_server.Service.{ScimService}
use scim2_server.Service.Routes.{match_request}
use scim2_server.Memory.{Attributes, Storage}
use scim2_server.Memory.Valid.{Reached, IsValid, create-IsValid, update-IsValid, delete-IsValid}
use scim2_server.Memory.Search.{search-IsValid}
use scim2_server.Memory.Lost.{Reached-IsVersioned}
use scim2_server.Handler.InMemory.{Surroundings, in_memory}
use scim2_server.Handler.Requested.{handle}
use scim2_server.Handler.{search_page}
use scim2_server.Base.{
  ℕ, ◌≡◌, sym, ◌∙◌, subst, some, List, nat_eq, text_eq, option_text_eq, Eq, ok, get_elem?, ◌≢◌,
}

module _ {B V R : Type 0} ⦃eb : Eq B⦄ ⦃ev : Eq V⦄ (a : Attributes B V R) {P C : Type 0}
    (w : Surroundings B V C) where
  serve_call-IsValid :
      (c : Call P C) (s : Storage B V) → IsValid a s → IsValid a (serve_call (shared a w) c s).1
  unfolding search_page
  serve_call-IsValid (Call.get rt id p) s h = h
  serve_call-IsValid (Call.search rts r p) s h = search-IsValid a rts (w.query r p) s h
  serve_call-IsValid (Call.create rt r) s h =
      create-IsValid a (w.generate_id s.versions) (w.clock s.versions) rt r s h
  serve_call-IsValid (Call.update rt r v) s h = update-IsValid a (w.clock s.versions) rt r v s h
  serve_call-IsValid (Call.delete rt id v) s h = delete-IsValid a rt id v s h

  -- In an event loop that serves any requests at the same time over one storage that writes reached from a new one, whatever the order in which it runs their calls,
  -- a request that is no bulk request and that ends with a successful answer takes effect at once: there is a turn of this loop, in which the request makes its last call and ends
  -- (or it makes no call at all, and the state is the first one), and `ScimHandler` alone, on the very state of the storage before this turn,
  -- gives the same answer and leaves the very state that the turn leaves.
  pub Loop-IsAtomic :
      {D J : Type 0} (sv : ScimService P D J C) {s u : Storage B V}
      {tasks tasks' : List (Coroutine P C (ScimResponse P))} (i : ℕ) (r : ScimRequest)
      (response : ScimResponse P)
      → Reached a s
      → ((target : Target) → match_request sv r ≡ ok target → target.operation ≢ Operation.bulk)
      → (loop : Loop (shared a w) s tasks u tasks')
      → get_elem? tasks i ≡ some (Async.handle sv (shared a w) r)
      → get_elem? tasks' i ≡ some (done (ok response))
      → TakesEffect
          (shared a w)
          i
          (ok response)
          (λ before after. handle sv (in_memory a w) r before ≡ (ok response, after))
          loop
  Loop-IsAtomic sv i r response reached single loop p q =
      TakesEffect-map (shared a w) i (ok response)
        (λ b t. run (shared a w) (Async.handle sv (shared a w) r) b ≡ (ok response, t))
        (λ b t. handle sv (in_memory a w) r b ≡ (ok response, t))
        (λ b t alone. sym (handle-Runs sv (in_memory a w) r b) ∙ alone) loop
        (IsOptimistic-TakesEffect a w i response (Async.handle sv (shared a w) r)
          (handle-IsOptimistic a sv w r single) (Reached-IsVersioned a reached) loop p q)

  -- However an event loop runs the calls of any requests, bulk requests included, the indexes of the unique values stay right.
  pub Loop-IsValid :
      {A : Type 0} {s u : Storage B V} {tasks tasks' : List (Coroutine P C A)}
      → IsValid a s
      → Loop (shared a w) s tasks u tasks'
      → IsValid a u
  Loop-IsValid h (idle s tasks) = h
  Loop-IsValid h (turn {s} {t} tn loop) =
      let (c, e) = Turn-call (shared a w) tn in
      Loop-IsValid (subst (λ x. IsValid a x) (sym e) (serve_call-IsValid c s h)) loop
