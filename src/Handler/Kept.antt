-- ===== src/Handler/Kept.antt =====
-- `handle` keeps what the operations of its storage keep.
use scim2_server.Models.{ResourceType}
use scim2_server.Routing.{Operation}
use scim2_server.Requests.{ScimRequest}
use scim2_server.Service.{ScimService, SearchRequest, or_empty}
use scim2_server.Service.Routes.{match_request, route, read_conditions}
use scim2_server.Service.Answers.{read_replacement, read_patch, creation_response}
use scim2_server.Service.Search.{read_search_query, read_search_body}
use scim2_server.Service.BulkSteps.{read_bulk}
use scim2_server.Handler.{
  ScimStorage, projection, search_page, replace_resource, patch_resource, delete_resource,
  run_steps,
}
use scim2_server.Handler.Requested.{
  content_type, authorized_target, read_created, read_target, searched, answer_search, create,
  query, replace, search, search_with_body, bulk, discover, serve, handle,
}
use scim2_server.Handler.Requested as Requested
use scim2_server.Base.{Option, none, List, nat_eq, text_eq, option_text_eq, ◌>>=◌}
use scim2_server.Handler.Preserves.{
  Keeps, then-Keeps, given-Keeps, answer-Keeps, StorageKeeps, replace_resource-Keeps,
  patch_resource-Keeps, delete_resource-Keeps, run_steps-Keeps,
}

module _ {P D J C S : Type 0} (sv : ScimService P D J C) (storage : ScimStorage P C S)
    (I : S → Type 0) (keeps : StorageKeeps I storage) where
  open keeps use {getting, searching, creating}

  create-Keeps : (r : ScimRequest) → Keeps I (create sv storage r)
  unfolding create
  create-Keeps r = given-Keeps I (read_created sv storage r) _ (λ (rt, resource).
      answer-Keeps I (storage.create rt resource) (creation_response sv r.base_url)
        (creating rt resource))

  query-Keeps : (r : ScimRequest) → Keeps I (query sv storage r)
  unfolding query
  query-Keeps r =
      given-Keeps I (read_target sv storage r Operation.query) _ (λ (target, rt, parameters).
        answer-Keeps I
          (storage.get rt (or_empty target.resource_id) (projection storage parameters)) _
          (getting rt _ _))

  replace-Keeps : (r : ScimRequest) → Keeps I (replace sv storage r)
  unfolding replace
  replace-Keeps r =
      given-Keeps I (read_target sv storage r Operation.replace) _ (λ (target, rt, parameters).
        then-Keeps I (storage.get rt (or_empty target.resource_id) none) _ (getting rt _ none)
          (λ current.
            given-Keeps I (read_replacement sv rt r.body (content_type sv storage r)) _
              (λ replacement.
                answer-Keeps I
                  (replace_resource sv storage rt current replacement (read_conditions sv r)) _
                  (replace_resource-Keeps I sv storage keeps rt current replacement _))))

  patch-Keeps : (r : ScimRequest) → Keeps I (Requested.patch sv storage r)
  unfolding Requested.patch
  patch-Keeps r =
      given-Keeps I (read_target sv storage r Operation.patch) _ (λ (target, rt, parameters).
        given-Keeps I (read_patch sv rt r.body (content_type sv storage r)) _ (λ op.
          answer-Keeps I
            (patch_resource sv storage rt (or_empty target.resource_id) op (read_conditions sv r)) _
            (patch_resource-Keeps I sv storage keeps rt _ op _)))

  delete-Keeps : (r : ScimRequest) → Keeps I (Requested.delete sv storage r)
  unfolding Requested.delete
  delete-Keeps r =
      given-Keeps I (authorized_target sv storage r Operation.delete) _ (λ (target, rt).
        answer-Keeps I
          (delete_resource sv storage rt (or_empty target.resource_id) (read_conditions sv r)) _
          (delete_resource-Keeps I sv storage keeps rt _ _))

  answer_search-Keeps :
      (r : ScimRequest) (types : List ResourceType × List ResourceType)
      (read : SearchRequest × Option C)
      → Keeps I (answer_search sv storage r types read)
  unfolding search_page
  answer_search-Keeps r types read =
      answer-Keeps I (search_page storage types.1 read.0 read.1) _ (searching types.1 read.0 _)

  search-Keeps : (r : ScimRequest) → Keeps I (search sv storage r)
  unfolding search
  search-Keeps r = given-Keeps I (searched sv storage r Operation.search) _ (λ types.
      given-Keeps I (read_search_query sv types.0 r.query) _ (answer_search-Keeps r types))

  search_with_body-Keeps : (r : ScimRequest) → Keeps I (search_with_body sv storage r)
  unfolding search_with_body
  search_with_body-Keeps r =
      given-Keeps I (searched sv storage r Operation.search_with_body) _ (λ types.
        given-Keeps I (read_search_body sv types.0 r.body (content_type sv storage r)) _
          (answer_search-Keeps r types))

  bulk-Keeps : (r : ScimRequest) → Keeps I (bulk sv storage r)
  unfolding bulk
  bulk-Keeps r =
      given-Keeps I
        (route sv r Operation.bulk >>= λ _. read_bulk sv r.body (content_type sv storage r)) _
        (λ plan.
          answer-Keeps I (run_steps sv storage r plan.steps plan) _
            (run_steps-Keeps I sv storage keeps r plan.steps plan))

  serve-Keeps : (o : Operation) (r : ScimRequest) → Keeps I (serve sv storage o r)
  unfolding serve discover
  serve-Keeps Operation.create r = create-Keeps r
  serve-Keeps Operation.query r = query-Keeps r
  serve-Keeps Operation.replace r = replace-Keeps r
  serve-Keeps Operation.patch r = patch-Keeps r
  serve-Keeps Operation.delete r = delete-Keeps r
  serve-Keeps Operation.search r = search-Keeps r
  serve-Keeps Operation.search_with_body r = search_with_body-Keeps r
  serve-Keeps Operation.bulk r = bulk-Keeps r
  serve-Keeps Operation.service_provider_config r = λ s i. i
  serve-Keeps Operation.resource_types r = λ s i. i
  serve-Keeps Operation.resource_type r = λ s i. i
  serve-Keeps Operation.schemas r = λ s i. i
  serve-Keeps Operation.schema r = λ s i. i

  -- Whatever the operations of a storage keep, successful or not, every request keeps, whatever it
  -- asks for and whether it is answered or refused.
  pub handle-Keeps : (r : ScimRequest) → Keeps I (handle sv storage r)
  unfolding handle
  handle-Keeps r = given-Keeps I (match_request sv r) _ (λ target. serve-Keeps target.operation r)
