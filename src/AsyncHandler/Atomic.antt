-- ===== src/AsyncHandler/Atomic.antt =====
-- The calls that a request of `AsyncScimHandler` over `AsyncInMemoryStorage` makes, but a bulk request.
use scim2_server.Models.{Meta, Resource, ResourceType}
use scim2_server.Conditions.{Conditions}
use scim2_server.Requests.{ScimRequest}
use scim2_server.Service.{ScimService, SearchRequest, or_empty}
use scim2_server.Service.Routes.{match_request, read_conditions}
use scim2_server.Service.Answers.{
  apply_replacement, apply_patch, check_deletion, read_replacement, read_patch,
}
use scim2_server.Service.Search.{read_search_query, read_search_body}
use scim2_server.Routing.{Operation, Target}
use scim2_server.AsyncHandler.{
  Call, Answer, Coroutine, done, await, ◌>>>=◌, attempt, awaited, asserting, ImmediateStorage,
  async_search_page, run, serve_call,
}
use scim2_server.AsyncHandler as Async
use scim2_server.Base.{
  ◌≡◌, refl, inl, inr, Option, none, some, List, nat_eq, Text, text_eq, option_text_eq, Eq, ok,
  Outcome-cases, ◌≢◌,
}
use scim2_server.AsyncHandler.Guarded.{
  IsGuarded, answer-IsGuarded, given-IsGuarded, asserting-IsGuarded, awaited-IsLast,
}
use scim2_server.AsyncHandler.Effects.{shared}
use scim2_server.AsyncHandler.Optimistic.{
  IsOptimistic, given-IsOptimistic, answer-IsOptimistic, awaited-IsOptimistic, read-IsOptimistic,
}
use scim2_server.Memory.{Attributes, Storage}
use scim2_server.Memory.Writes.{HasVersion}
use scim2_server.Handler.InMemory.{Surroundings}

module _ {B V R : Type 0} ⦃eb : Eq B⦄ ⦃ev : Eq V⦄ (a : Attributes B V R) {P D J C : Type 0}
    (sv : ScimService P D J C) (w : Surroundings B V C) where
  abbrev storage : ImmediateStorage P C (Storage B V)
  storage = shared a w

  write_changed-IsGuarded :
      (rt : ResourceType) (current : Resource) (m : Meta) (v : Text) (o : Option Resource)
      → m.version ≡ some v
      → IsGuarded v (Async.Resources.write_changed sv storage rt current m.version o)
  write_changed-IsGuarded rt current m v none e = tt
  write_changed-IsGuarded rt current m v (some r) e = (e, awaited-IsLast)

  replace_resource-IsGuarded :
      (rt : ResourceType) (current replacement : Resource) (c : Conditions) (v : Text)
      → HasVersion a current v
      → IsGuarded v (Async.Resources.replace_resource sv storage rt current replacement c)
  unfolding Async.Resources.replace_resource
  replace_resource-IsGuarded rt current replacement c v (m, e, p) =
      asserting-IsGuarded v current.meta m _ e (
        given-IsGuarded v (apply_replacement sv current replacement c) _
          (λ o. write_changed-IsGuarded rt current m v o p))

  patch_resource-IsOptimistic :
      (rt : ResourceType) (id : Text) (op : D) (c : Conditions)
      → IsOptimistic a (Async.Resources.patch_resource sv storage rt id op c)
  unfolding Async.Resources.patch_resource
  patch_resource-IsOptimistic rt id op c = read-IsOptimistic a rt id none _ (λ current v (m, e, p).
      asserting-IsGuarded v current.meta m _ e (
        given-IsGuarded v (apply_patch sv current op c) _
          (λ o. write_changed-IsGuarded rt current m v o p)))

  delete_resource-IsOptimistic :
      (rt : ResourceType) (id : Text) (c : Conditions)
      → IsOptimistic a (Async.Resources.delete_resource sv storage rt id c)
  unfolding Async.Resources.delete_resource
  delete_resource-IsOptimistic rt id c = read-IsOptimistic a rt id none _ (λ current v (m, e, p).
      given-IsGuarded v (check_deletion sv current c) _
        (λ _. asserting-IsGuarded v current.meta m _ e (p, awaited-IsLast)))

  create-IsOptimistic : (r : ScimRequest) → IsOptimistic a (Async.Requested.create sv storage r)
  unfolding Async.Requested.create
  create-IsOptimistic r =
      given-IsOptimistic a (Async.Requested.read_created sv storage r) _ (λ read.
        answer-IsOptimistic a (awaited (Call.create read.0 read.1)) _
          (awaited-IsOptimistic a (Call.create read.0 read.1)))

  query-IsOptimistic : (r : ScimRequest) → IsOptimistic a (Async.Requested.query sv storage r)
  unfolding Async.Requested.query
  query-IsOptimistic r =
      given-IsOptimistic a (Async.Requested.read_target sv storage r Operation.query) _
        (λ (target, rt, parameters).
          answer-IsOptimistic a
            (awaited (Call.get rt (or_empty target.resource_id) (some parameters))) _
            (awaited-IsOptimistic a (Call.get rt (or_empty target.resource_id) (some parameters))))

  replace-IsOptimistic : (r : ScimRequest) → IsOptimistic a (Async.Requested.replace sv storage r)
  unfolding Async.Requested.replace
  replace-IsOptimistic r =
      given-IsOptimistic a (Async.Requested.read_target sv storage r Operation.replace) _
        (λ (target, rt, parameters).
          read-IsOptimistic a rt (or_empty target.resource_id) none _ (λ current v has.
            given-IsGuarded v
              (read_replacement sv rt r.body (Async.Requested.content_type sv storage r)) _
              (λ replacement.
                answer-IsGuarded v
                  (Async.Resources.replace_resource sv storage rt current replacement
                    (read_conditions sv r))
                  _
                  (replace_resource-IsGuarded rt current replacement (read_conditions sv r) v
                    has))))

  patch-IsOptimistic : (r : ScimRequest) → IsOptimistic a (Async.Requested.patch sv storage r)
  unfolding Async.Requested.patch
  patch-IsOptimistic r =
      given-IsOptimistic a (Async.Requested.read_target sv storage r Operation.patch) _
        (λ (target, rt, parameters).
          given-IsOptimistic a (read_patch sv rt r.body (Async.Requested.content_type sv storage r))
            _
            (λ op.
              answer-IsOptimistic a
                (Async.Resources.patch_resource sv storage rt (or_empty target.resource_id) op
                  (read_conditions sv r))
                _
                (patch_resource-IsOptimistic rt (or_empty target.resource_id) op
                  (read_conditions sv r))))

  delete-IsOptimistic : (r : ScimRequest) → IsOptimistic a (Async.Requested.delete sv storage r)
  unfolding Async.Requested.delete
  delete-IsOptimistic r =
      given-IsOptimistic a (Async.Requested.authorized_target sv storage r Operation.delete) _
        (λ (target, rt).
          answer-IsOptimistic a
            (Async.Resources.delete_resource sv storage rt (or_empty target.resource_id)
              (read_conditions sv r))
            _
            (delete_resource-IsOptimistic rt (or_empty target.resource_id) (read_conditions sv r)))

  answer_search-IsOptimistic :
      (r : ScimRequest) (types : List ResourceType × List ResourceType)
      (read : SearchRequest × Option C)
      → IsOptimistic a (Async.Requested.answer_search sv storage r types read)
  unfolding async_search_page
  answer_search-IsOptimistic r types read =
      answer-IsOptimistic a (async_search_page storage types.1 read.0 read.1) _
        (awaited-IsOptimistic a (Call.search types.1 read.0 read.1))

  search-IsOptimistic : (r : ScimRequest) → IsOptimistic a (Async.Requested.search sv storage r)
  unfolding Async.Requested.search
  search-IsOptimistic r =
      given-IsOptimistic a (Async.Requested.searched sv storage r Operation.search) _ (λ types.
        given-IsOptimistic a (read_search_query sv types.0 r.query) _
          (answer_search-IsOptimistic r types))

  search_with_body-IsOptimistic :
      (r : ScimRequest) → IsOptimistic a (Async.Requested.search_with_body sv storage r)
  unfolding Async.Requested.search_with_body
  search_with_body-IsOptimistic r =
      given-IsOptimistic a (Async.Requested.searched sv storage r Operation.search_with_body) _
        (λ types.
          given-IsOptimistic a
            (read_search_body sv types.0 r.body (Async.Requested.content_type sv storage r)) _
            (answer_search-IsOptimistic r types))

  serve-IsOptimistic :
      (o : Operation) (r : ScimRequest)
      → o ≢ Operation.bulk
      → IsOptimistic a (Async.Requested.serve sv storage o r)
  unfolding Async.Requested.serve Async.Requested.discover
  serve-IsOptimistic Operation.create r h = create-IsOptimistic r
  serve-IsOptimistic Operation.query r h = query-IsOptimistic r
  serve-IsOptimistic Operation.replace r h = replace-IsOptimistic r
  serve-IsOptimistic Operation.patch r h = patch-IsOptimistic r
  serve-IsOptimistic Operation.delete r h = delete-IsOptimistic r
  serve-IsOptimistic Operation.search r h = search-IsOptimistic r
  serve-IsOptimistic Operation.search_with_body r h = search_with_body-IsOptimistic r
  serve-IsOptimistic Operation.bulk r h = absurd (h refl)
  serve-IsOptimistic Operation.service_provider_config r h = tt
  serve-IsOptimistic Operation.resource_types r h = tt
  serve-IsOptimistic Operation.resource_type r h = tt
  serve-IsOptimistic Operation.schemas r h = tt
  serve-IsOptimistic Operation.schema r h = tt

  pub handle-IsOptimistic :
      (r : ScimRequest)
      → ((target : Target) → match_request sv r ≡ ok target → target.operation ≢ Operation.bulk)
      → IsOptimistic a (Async.Requested.handle sv storage r)
  unfolding Async.Requested.handle
  handle-IsOptimistic r single = elim (Outcome-cases (match_request sv r)) [
    | inr (e, p) ↦ rw p tt
    | inl (target, p) ↦ rw p (serve-IsOptimistic target.operation r (single target p))
  ]
