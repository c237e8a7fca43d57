-- ===== src/AsyncHandler/Counted.antt =====
-- How many calls a request of `AsyncScimHandler` makes.
use scim2_server.Models.{Meta, Resource, ResourceType}
use scim2_server.Conditions.{Conditions}
use scim2_server.Requests.{ScimRequest}
use scim2_server.Service.{ScimService, SearchRequest, or_empty}
use scim2_server.Service.Routes.{match_request, read_conditions}
use scim2_server.Service.Answers.{
  apply_replacement, apply_patch, check_deletion, read_replacement, read_patch,
}
use scim2_server.Service.Search.{read_search_query, read_search_body}
use scim2_server.Routing.{Operation, Target}
use scim2_server.AsyncHandler.{
  Call, Answer, Coroutine, done, await, ◌>>>=◌, attempt, awaited, asserting, ImmediateStorage,
  async_search_page, run, serve_call,
}
use scim2_server.AsyncHandler as Async
use scim2_server.Base.{
  ℕ, zero, suc, ◌≡◌, refl, inl, inr, Option, none, some, List, nat_eq, Text, text_eq,
  option_text_eq, Outcome, ok, err, Outcome-cases, ◌≢◌,
}

-- The coroutine ends within so many calls, whatever they return.
abbrev pub AtMost : {P C A : Type 0} → ℕ → Coroutine P C A → Type 0
AtMost n (done o) = Unit
AtMost zero (await c k) = ⊥
AtMost {P} {C} (suc n) (await c k) = (o : Outcome (Answer c)) → AtMost n (k o)

given-AtMost :
    {P C A B : Type 0} (n : ℕ) (o : Outcome A) (f : A → Coroutine P C B)
    → ((a : A) → AtMost n (f a))
    → AtMost n (done o >>>= f)
given-AtMost n (ok a) f h = h a
given-AtMost n (err e) f h = tt

answer-AtMost :
    {P C A B : Type 0} (n : ℕ) (m : Coroutine P C A) (f : A → Outcome B)
    → AtMost n m
    → AtMost n (m >>>= λ a. done (f a))
answer-AtMost n (done o) f h = given-AtMost n o (λ a. done (f a)) (λ a. tt)
answer-AtMost zero (await c k) f h = h
answer-AtMost (suc n) (await c k) f h = λ o. answer-AtMost n (k o) f (h o)

asserting-AtMost :
    {P C A : Type 0} (n : ℕ) (o : Option Meta) (f : Meta → Coroutine P C A)
    → ((m : Meta) → AtMost n (f m))
    → AtMost n (asserting o f)
asserting-AtMost n none f h = tt
asserting-AtMost n (some m) f h = h m

module _ {P D J C S : Type 0} (sv : ScimService P D J C) (storage : ImmediateStorage P C S) where
  write_changed-AtMost :
      (rt : ResourceType) (current : Resource) (v : Option Text) (o : Option Resource)
      → AtMost 1 (Async.Resources.write_changed sv storage rt current v o)
  write_changed-AtMost rt current v none = tt
  write_changed-AtMost rt current v (some r) = λ o. tt

  replace_resource-AtMost :
      (rt : ResourceType) (current replacement : Resource) (c : Conditions)
      → AtMost 1 (Async.Resources.replace_resource sv storage rt current replacement c)
  unfolding Async.Resources.replace_resource
  replace_resource-AtMost rt current replacement c = asserting-AtMost 1 current.meta _ (λ m.
      given-AtMost 1 (apply_replacement sv current replacement c) _
        (write_changed-AtMost rt current m.version))

  patch_resource-AtMost :
      (rt : ResourceType) (id : Text) (op : D) (c : Conditions)
      → AtMost 2 (Async.Resources.patch_resource sv storage rt id op c)
  unfolding Async.Resources.patch_resource
  patch_resource-AtMost rt id op c = λ o. given-AtMost 1 o _ (λ current.
      asserting-AtMost 1 current.meta _ (λ m.
        given-AtMost 1 (apply_patch sv current op c) _ (write_changed-AtMost rt current m.version)))

  delete_resource-AtMost :
      (rt : ResourceType) (id : Text) (c : Conditions)
      → AtMost 2 (Async.Resources.delete_resource sv storage rt id c)
  unfolding Async.Resources.delete_resource
  delete_resource-AtMost rt id c = λ o. given-AtMost 1 o _ (λ current.
      given-AtMost 1 (check_deletion sv current c) _
        (λ _. asserting-AtMost 1 current.meta _ (λ m o'. tt)))

  answer_search-AtMost :
      (r : ScimRequest) (types : List ResourceType × List ResourceType)
      (read : SearchRequest × Option C)
      → AtMost 2 (Async.Requested.answer_search sv storage r types read)
  unfolding async_search_page
  answer_search-AtMost r types read = λ o. given-AtMost 1 o _ (λ page. tt)

  serve-AtMost :
      (o : Operation) (r : ScimRequest)
      → o ≢ Operation.bulk
      → AtMost 2 (Async.Requested.serve sv storage o r)
  unfolding Async.Requested.serve Async.Requested.create Async.Requested.query
      Async.Requested.replace Async.Requested.patch Async.Requested.delete Async.Requested.search
      Async.Requested.search_with_body Async.Requested.discover
  serve-AtMost Operation.create r h =
      given-AtMost 2 (Async.Requested.read_created sv storage r) _
        (λ read o. given-AtMost 1 o _ (λ created. tt))
  serve-AtMost Operation.query r h =
      given-AtMost 2 (Async.Requested.read_target sv storage r Operation.query) _
        (λ found o. given-AtMost 1 o _ (λ resource. tt))
  serve-AtMost Operation.replace r h =
      given-AtMost 2 (Async.Requested.read_target sv storage r Operation.replace) _ (λ found o.
        given-AtMost 1 o _ (λ current.
          given-AtMost 1
            (read_replacement sv found.1 r.body (Async.Requested.content_type sv storage r)) _
            (λ replacement.
              answer-AtMost 1
                (Async.Resources.replace_resource sv storage found.1 current replacement
                  (read_conditions sv r))
                _ (replace_resource-AtMost found.1 current replacement (read_conditions sv r)))))
  serve-AtMost Operation.patch r h =
      given-AtMost 2 (Async.Requested.read_target sv storage r Operation.patch) _ (λ found.
        given-AtMost 2 (read_patch sv found.1 r.body (Async.Requested.content_type sv storage r)) _
          (λ op.
            answer-AtMost 2
              (Async.Resources.patch_resource sv storage found.1 (or_empty found.0.resource_id) op
                (read_conditions sv r))
              _
              (patch_resource-AtMost found.1 (or_empty found.0.resource_id) op
                (read_conditions sv r))))
  serve-AtMost Operation.delete r h =
      given-AtMost 2 (Async.Requested.authorized_target sv storage r Operation.delete) _ (λ found.
        answer-AtMost 2
          (Async.Resources.delete_resource sv storage found.1 (or_empty found.0.resource_id)
            (read_conditions sv r))
          _ (delete_resource-AtMost found.1 (or_empty found.0.resource_id) (read_conditions sv r)))
  serve-AtMost Operation.search r h =
      given-AtMost 2 (Async.Requested.searched sv storage r Operation.search) _ (λ types.
        given-AtMost 2 (read_search_query sv types.0 r.query) _ (answer_search-AtMost r types))
  serve-AtMost Operation.search_with_body r h =
      given-AtMost 2 (Async.Requested.searched sv storage r Operation.search_with_body) _ (λ types.
        given-AtMost 2
          (read_search_body sv types.0 r.body (Async.Requested.content_type sv storage r)) _
          (answer_search-AtMost r types))
  serve-AtMost Operation.bulk r h = absurd (h refl)
  serve-AtMost Operation.service_provider_config r h = tt
  serve-AtMost Operation.resource_types r h = tt
  serve-AtMost Operation.resource_type r h = tt
  serve-AtMost Operation.schemas r h = tt
  serve-AtMost Operation.schema r h = tt

  -- The request is for a single operation.
  abbrev pub IsSingle : ScimRequest → Type 0
  IsSingle r =
      (target : Target) → match_request sv r ≡ ok target → target.operation ≢ Operation.bulk

  pub handle-AtMost :
      (r : ScimRequest) → IsSingle r → AtMost 2 (Async.Requested.handle sv storage r)
  unfolding Async.Requested.handle
  handle-AtMost r h = elim (Outcome-cases (match_request sv r)) [
    | inr (e, p) ↦ rw p tt
    | inl (target, p) ↦ rw p (serve-AtMost target.operation r (h target p))
  ]
