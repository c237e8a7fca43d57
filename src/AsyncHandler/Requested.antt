-- ===== src/AsyncHandler/Requested.antt =====
-- The coroutines of `AsyncScimHandler` for a whole request, and `handle`.
use scim2_server.Models.{Resource, ResourceType}
use scim2_server.Requests.{ScimRequest, ScimResponse, header, url}
use scim2_server.Service.{ScimService, SearchRequest, or_empty, resource_type_at}
use scim2_server.Service.Routes.{
  match_request, route, me_response, authorized_types, read_conditions, searched_types,
}
use scim2_server.Service.Answers.{
  read_creation, read_replacement, read_patch, read_response_parameters, creation_response,
  query_response, replacement_response, patch_response, deletion_response,
}
use scim2_server.Service.Search.{read_search_query, read_search_body, search_response}
use scim2_server.Service.BulkSteps.{read_bulk, bulk_response}
use scim2_server.Routing.{Operation, Target}
use scim2_server.Service.Discovery.{
  service_provider_config, resource_types, resource_type, schemas, schema,
}
use scim2_server.AsyncHandler.{
  Call, Coroutine, done, ◌>>>=◌, awaited, ImmediateStorage, projection, async_search_page,
}
use scim2_server.AsyncHandler.Resources.{replace_resource, patch_resource, delete_resource}
use scim2_server.AsyncHandler.BulkRun.{run_steps}
use scim2_server.Base.{
  Option, none, List, nat_eq, Text, text_eq, option_text_eq, codes, Outcome, ok, ◌>>=◌, ◌>>◌,
}

module _ {P D J C S : Type 0} (sv : ScimService P D J C) (storage : ImmediateStorage P C S) where
  abbrev pub content_type : ScimRequest → Option Text
  content_type r = header sv.lower (codes "Content-Type") r

  -- The target of a request for an operation on one type, and this type, once it is authorized.
  abbrev pub authorized_target : ScimRequest → Operation → Outcome (Target × ResourceType)
  authorized_target r operation = route sv r operation >>= λ target.
      resource_type_at sv (or_empty target.endpoint) >>= λ rt.
      sv.authorize r target rt >> ok (target, rt)

  abbrev pub read_created : ScimRequest → Outcome (ResourceType × Resource)
  read_created r = authorized_target r Operation.create >>= λ found.
      read_creation sv found.1 r.body (content_type r) >>= λ resource. ok (found.1, resource)

  unfoldable pub create : ScimRequest → Coroutine P C (ScimResponse P)
  create r = done (read_created r) >>>= λ read. awaited (Call.create read.0 read.1) >>>= λ created.
      done (creation_response sv r.base_url created)

  -- The target, its type and the response parameters.
  abbrev pub read_target : ScimRequest → Operation → Outcome (Target × ResourceType × P)
  read_target r operation = authorized_target r operation >>= λ found.
      read_response_parameters sv found.1 r.query >>= λ parameters.
      ok (found.0, found.1, parameters)

  unfoldable pub query : ScimRequest → Coroutine P C (ScimResponse P)
  query r = done (read_target r Operation.query) >>>= λ found.
      let (target, rt, parameters) = found in
      awaited (Call.get rt (or_empty target.resource_id) (projection storage parameters))
      >>>= λ resource. done (
          query_response sv r.base_url resource parameters (read_conditions sv r)
          >>= me_response sv r target)

  unfoldable pub replace : ScimRequest → Coroutine P C (ScimResponse P)
  unfolding replace_resource
  replace r = done (read_target r Operation.replace) >>>= λ found.
      let (target, rt, parameters) = found in
      awaited (Call.get rt (or_empty target.resource_id) none) >>>= λ current.
      done (read_replacement sv rt r.body (content_type r)) >>>= λ replacement.
      replace_resource sv storage rt current replacement (read_conditions sv r) >>>= λ resource.
      done (replacement_response sv r.base_url resource parameters >>= me_response sv r target)

  unfoldable pub patch : ScimRequest → Coroutine P C (ScimResponse P)
  unfolding patch_resource
  patch r = done (read_target r Operation.patch) >>>= λ found.
      let (target, rt, parameters) = found in
      done (read_patch sv rt r.body (content_type r)) >>>= λ patch_op.
      patch_resource sv storage rt (or_empty target.resource_id) patch_op (read_conditions sv r)
      >>>= λ resource.
          done (patch_response sv r.base_url resource parameters >>= me_response sv r target)

  unfoldable pub delete : ScimRequest → Coroutine P C (ScimResponse P)
  unfolding delete_resource
  delete r = done (authorized_target r Operation.delete) >>>= λ found.
      delete_resource sv storage found.1 (or_empty found.0.resource_id) (read_conditions sv r)
      >>>= λ _. done (me_response sv r found.0 (deletion_response sv))

  -- The types that a search covers, and those of them that the client may search.
  abbrev pub searched : ScimRequest → Operation → Outcome (List ResourceType × List ResourceType)
  searched r operation = route sv r operation >>= λ target.
      searched_types sv target.endpoint >>= λ rts.
      authorized_types sv r target rts >>= λ authorized. ok (rts, authorized)

  abbrev pub answer_search :
      ScimRequest
      → List ResourceType × List ResourceType
      → SearchRequest × Option C
      → Coroutine P C (ScimResponse P)
  answer_search r types read = async_search_page storage types.1 read.0 read.1 >>>= λ page.
      done (search_response sv r.base_url types.0 page read.0)

  unfoldable pub search : ScimRequest → Coroutine P C (ScimResponse P)
  unfolding async_search_page
  search r = done (searched r Operation.search) >>>= λ types.
      done (read_search_query sv types.0 r.query) >>>= answer_search r types

  unfoldable pub search_with_body : ScimRequest → Coroutine P C (ScimResponse P)
  unfolding async_search_page
  search_with_body r = done (searched r Operation.search_with_body) >>>= λ types.
      done (read_search_body sv types.0 r.body (content_type r)) >>>= answer_search r types

  unfoldable pub bulk : ScimRequest → Coroutine P C (ScimResponse P)
  unfolding run_steps
  bulk r =
      done (route sv r Operation.bulk >>= λ _. read_bulk sv r.body (content_type r)) >>>= λ plan.
      run_steps sv storage r plan.steps plan >>>= λ finished. done (ok (bulk_response sv finished))

  -- The discovery endpoints, with the URL of the request.
  unfoldable pub discover :
      ScimRequest → Operation → (Target → Outcome (ScimResponse P)) → Coroutine P C (ScimResponse P)
  discover r operation answer = done (route sv r operation >>= answer)

  -- The method of an operation, by its name.
  unfoldable pub serve : Operation → ScimRequest → Coroutine P C (ScimResponse P)
  unfolding create query replace patch delete search search_with_body bulk discover
      service_provider_config resource_types resource_type schemas schema
  serve Operation.create r = create r
  serve Operation.query r = query r
  serve Operation.replace r = replace r
  serve Operation.patch r = patch r
  serve Operation.delete r = delete r
  serve Operation.search r = search r
  serve Operation.search_with_body r = search_with_body r
  serve Operation.bulk r = bulk r
  serve Operation.service_provider_config r =
      discover r Operation.service_provider_config (λ t. service_provider_config sv (url r) r.query)
  serve Operation.resource_types r =
      discover r Operation.resource_types (λ t. resource_types sv (url r) r.query)
  serve Operation.resource_type r =
      discover r Operation.resource_type
        (λ t. resource_type sv (url r) (or_empty t.resource_id) r.query)
  serve Operation.schemas r = discover r Operation.schemas (λ t. schemas sv (url r) r.query)
  serve Operation.schema r =
      discover r Operation.schema (λ t. schema sv (url r) (or_empty t.resource_id) r.query)

  unfoldable pub handle : ScimRequest → Coroutine P C (ScimResponse P)
  unfolding serve
  handle r = done (match_request sv r) >>>= λ target. serve target.operation r
