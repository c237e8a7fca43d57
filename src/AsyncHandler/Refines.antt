-- ===== src/AsyncHandler/Refines.antt =====
-- `AsyncScimHandler.handle`, alone on its storage, is `ScimHandler.handle`.
use scim2_server.Models.{ResourceType}
use scim2_server.Requests.{ScimRequest}
use scim2_server.Service.{ScimService, SearchRequest, or_empty}
use scim2_server.Service.Routes.{match_request, route, read_conditions}
use scim2_server.Service.Answers.{read_replacement, read_patch}
use scim2_server.Service.Search.{read_search_query, read_search_body}
use scim2_server.Service.BulkSteps.{read_bulk}
use scim2_server.Routing.{Operation}
use scim2_server.AsyncHandler.{
  Call, Answer, Coroutine, done, await, ◌>>>=◌, attempt, awaited, asserting, ImmediateStorage,
  async_search_page, run, serve_call,
}
use scim2_server.AsyncHandler as Async
use scim2_server.Handler.{
  Act, go_on, lift, ◌>>>◌, with_meta, ScimStorage, projection, search_page, handled, when_given,
}
use scim2_server.Handler as Sync
use scim2_server.Base.{◌≡◌, refl, Option, none, some, List, nat_eq, text_eq, option_text_eq, ◌>>=◌}
use scim2_server.AsyncHandler.BulkRun.{run_steps}
use scim2_server.AsyncHandler.Alone.{
  Runs, then-Runs, given-Runs, answer-Runs, replace_resource-Runs, patch_resource-Runs,
  delete_resource-Runs, async_in_memory,
}
use scim2_server.AsyncHandler.BulkAlone.{run_steps-Runs}

module _ {P D J C S : Type 0} (sv : ScimService P D J C) (storage : ScimStorage P C S) where
  create-Runs :
      (r : ScimRequest)
      → Runs sv storage
          (Async.Requested.create sv (async_in_memory storage) r)
          (Sync.Requested.create sv storage r)
  unfolding Async.Requested.create Sync.Requested.create
  create-Runs r = given-Runs sv storage (Sync.Requested.read_created sv storage r) _ _ (λ read.
      answer-Runs sv storage (awaited (Call.create read.0 read.1)) (storage.create read.0 read.1) _
        (λ s. refl))

  query-Runs :
      (r : ScimRequest)
      → Runs sv storage
          (Async.Requested.query sv (async_in_memory storage) r)
          (Sync.Requested.query sv storage r)
  unfolding Async.Requested.query Sync.Requested.query
  query-Runs r =
      given-Runs sv storage (Sync.Requested.read_target sv storage r Operation.query) _ _
        (λ (target, rt, parameters).
          answer-Runs sv storage
            (awaited (Call.get rt (or_empty target.resource_id) (some parameters)))
            (storage.get rt (or_empty target.resource_id) (projection storage parameters)) _
            (λ s. refl))

  replace-Runs :
      (r : ScimRequest)
      → Runs sv storage
          (Async.Requested.replace sv (async_in_memory storage) r)
          (Sync.Requested.replace sv storage r)
  unfolding Async.Requested.replace Sync.Requested.replace
  replace-Runs r =
      given-Runs sv storage (Sync.Requested.read_target sv storage r Operation.replace) _ _
        (λ (target, rt, parameters).
          then-Runs sv storage (awaited (Call.get rt (or_empty target.resource_id) none)) _
            (storage.get rt (or_empty target.resource_id) none) _ (λ s. refl)
            (λ current.
              given-Runs sv storage
                (read_replacement sv rt r.body (Sync.Requested.content_type sv storage r)) _ _
                (λ replacement.
                  answer-Runs sv storage
                    (Async.Resources.replace_resource sv (async_in_memory storage) rt current
                      replacement (read_conditions sv r))
                    _ _
                    (replace_resource-Runs sv storage rt current replacement
                      (read_conditions sv r)))))

  patch-Runs :
      (r : ScimRequest)
      → Runs sv storage
          (Async.Requested.patch sv (async_in_memory storage) r)
          (Sync.Requested.patch sv storage r)
  unfolding Async.Requested.patch Sync.Requested.patch
  patch-Runs r =
      given-Runs sv storage (Sync.Requested.read_target sv storage r Operation.patch) _ _
        (λ (target, rt, parameters).
          given-Runs sv storage (read_patch sv rt r.body (Sync.Requested.content_type sv storage r))
            _ _
            (λ op.
              answer-Runs sv storage
                (Async.Resources.patch_resource sv (async_in_memory storage) rt
                  (or_empty target.resource_id) op (read_conditions sv r))
                _ _
                (patch_resource-Runs sv storage rt (or_empty target.resource_id) op
                  (read_conditions sv r))))

  delete-Runs :
      (r : ScimRequest)
      → Runs sv storage
          (Async.Requested.delete sv (async_in_memory storage) r)
          (Sync.Requested.delete sv storage r)
  unfolding Async.Requested.delete Sync.Requested.delete
  delete-Runs r =
      given-Runs sv storage (Sync.Requested.authorized_target sv storage r Operation.delete) _ _
        (λ (target, rt).
          answer-Runs sv storage
            (Async.Resources.delete_resource sv (async_in_memory storage) rt
              (or_empty target.resource_id) (read_conditions sv r))
            _ _
            (delete_resource-Runs sv storage rt (or_empty target.resource_id)
              (read_conditions sv r)))

  answer_search-Runs :
      (r : ScimRequest) (types : List ResourceType × List ResourceType)
      (read : SearchRequest × Option C)
      → Runs sv storage
          (Async.Requested.answer_search sv (async_in_memory storage) r types read)
          (Sync.Requested.answer_search sv storage r types read)
  unfolding async_search_page search_page
  answer_search-Runs r types read =
      answer-Runs sv storage (async_search_page (async_in_memory storage) types.1 read.0 read.1)
        (search_page storage types.1 read.0 read.1) _ (λ s. refl)

  search-Runs :
      (r : ScimRequest)
      → Runs sv storage
          (Async.Requested.search sv (async_in_memory storage) r)
          (Sync.Requested.search sv storage r)
  unfolding Async.Requested.search Sync.Requested.search
  search-Runs r =
      given-Runs sv storage (Sync.Requested.searched sv storage r Operation.search) _ _ (λ types.
        given-Runs sv storage (read_search_query sv types.0 r.query) _ _
          (answer_search-Runs r types))

  search_with_body-Runs :
      (r : ScimRequest)
      → Runs sv storage
          (Async.Requested.search_with_body sv (async_in_memory storage) r)
          (Sync.Requested.search_with_body sv storage r)
  unfolding Async.Requested.search_with_body Sync.Requested.search_with_body
  search_with_body-Runs r =
      given-Runs sv storage (Sync.Requested.searched sv storage r Operation.search_with_body) _ _
        (λ types.
          given-Runs sv storage
            (read_search_body sv types.0 r.body (Sync.Requested.content_type sv storage r)) _ _
            (answer_search-Runs r types))

  bulk-Runs :
      (r : ScimRequest)
      → Runs sv storage
          (Async.Requested.bulk sv (async_in_memory storage) r)
          (Sync.Requested.bulk sv storage r)
  unfolding Async.Requested.bulk Sync.Requested.bulk
  bulk-Runs r =
      given-Runs sv storage
        (route sv r Operation.bulk >>= λ _.
          read_bulk sv r.body (Sync.Requested.content_type sv storage r))
        _ _
        (λ plan.
          answer-Runs sv storage (run_steps sv (async_in_memory storage) r plan.steps plan) _ _
            (run_steps-Runs sv storage r plan.steps plan))

  serve-Runs :
      (o : Operation) (r : ScimRequest)
      → Runs sv storage
          (Async.Requested.serve sv (async_in_memory storage) o r)
          (Sync.Requested.serve sv storage o r)
  unfolding Async.Requested.serve Sync.Requested.serve Async.Requested.discover
      Sync.Requested.discover
  serve-Runs Operation.create r = create-Runs r
  serve-Runs Operation.query r = query-Runs r
  serve-Runs Operation.replace r = replace-Runs r
  serve-Runs Operation.patch r = patch-Runs r
  serve-Runs Operation.delete r = delete-Runs r
  serve-Runs Operation.search r = search-Runs r
  serve-Runs Operation.search_with_body r = search_with_body-Runs r
  serve-Runs Operation.bulk r = bulk-Runs r
  serve-Runs Operation.service_provider_config r = λ s. refl
  serve-Runs Operation.resource_types r = λ s. refl
  serve-Runs Operation.resource_type r = λ s. refl
  serve-Runs Operation.schemas r = λ s. refl
  serve-Runs Operation.schema r = λ s. refl

  -- On any request, a bulk request included, the coroutine of `AsyncScimHandler.handle` that runs alone over an asynchronous
  -- storage that delegates to a storage gives the answer or the exception that `ScimHandler.handle` gives over this storage,
  -- and leaves it in the same state.
  pub handle-Runs :
      (r : ScimRequest) (s : S)
      → run (async_in_memory storage) (Async.Requested.handle sv (async_in_memory storage) r) s
        ≡ Sync.Requested.handle sv storage r s
  unfolding Async.Requested.handle Sync.Requested.handle
  handle-Runs r =
      given-Runs sv storage (match_request sv r) _ _ (λ target. serve-Runs target.operation r)
