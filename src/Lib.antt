-- ===== src/Lib.antt =====
-- A model of scim2_server, a SCIM 2.0 server library in Python, and the theorems about it.
--
-- A request (scim2_server/requests.py) is routed (scim2_server/routing.py). A handler
-- (scim2_server/handler.py) then calls the steps of a service (scim2_server/service.py), which
-- validates, authorizes, evaluates the conditional headers (scim2_server/conditions.py) and
-- builds the response, and between them the operations of a storage (scim2_server/storage.py);
-- scim2_server/memory.py is the storage that keeps the resources in memory. A bulk request runs
-- by the plan of scim2_server/bulk.py. The files of the model:
-- - Base: text as lists of codes, `Outcome` for code that may raise, `Dict` for a dict in
--   insertion order, lists and Boolean tests.
-- - Routing: `match`, `match_pattern` and the table `routes`. Routing/Table describes the
--   answers by the segments of the path, Routing/Rows and Routing/Match compare the two.
-- - Conditions: `opaque_tag`, `EntityTags` and `Conditions`. The regular expression of an entity
--   tag is a reader by clauses; the loop over its matches has the length of the header as fuel,
--   since each match takes a character (Conditions/Members). Conditions/Lists and
--   Conditions/Checks read the headers that a client writes.
-- - Models: the fields of the objects of scim2_models that the program uses.
-- - Bulk: `replace_bulk_ids` and `resolve_operation`; Bulk/Plan the class `BulkPlan`; Bulk/Walk
--   its `plan_steps`, whose loop has as fuel one round per push and one per dependency, which is
--   enough (Bulk/Rounds); Bulk/Invariant, Bulk/Once, Bulk/Before and Bulk/Schedule what the plan
--   is.
-- - Memory: the state of `InMemoryStorage` with its indexes, Memory/Store its operations,
--   Memory/Search its search, Memory/Paging the slice of a cursor page, Memory/Positions the
--   sort keys and the JSON form of a cursor position, and Memory/Pages the page of a search,
--   whose order Memory/Sorting and Memory/Following are about. A sort compares its keys by a
--   function that always answers, where Python may raise a `TypeError` on values of two types.
--   Memory/Owning, Memory/Index, Memory/Found, Memory/Keeps, Memory/Valid and Memory/Writes hold
--   the invariant and what a write does; Memory/Versions, Memory/Later and Memory/Lost follow
--   the versions over many calls. Memory/Equal is about the index of equal values, which a
--   search fills on demand and each write keeps: Memory/Equal/Described, Memory/Equal/Shape and
--   Memory/Equal/Kept follow one write, Memory/Equal/Used all writes, and Memory/Equal/Begun,
--   Memory/Equal/Searched and Memory/Equal/Answered the searches.
-- - Requests: `ScimRequest` and `ScimResponse`. The body of a response is what the program calls
--   `model_dump` on.
-- - Service: the configuration and the capabilities of `ScimService`; Service/Routes its
--   routing, authorization and limits; Service/Answers the bodies it reads, the resources it
--   publishes and its responses; Service/Search its pagination; Service/BulkSteps its steps of a
--   bulk request; Service/Discovery the discovery endpoints and the answers to exceptions.
--   Service/Bounds, Service/Paged and Service/Authorized hold the theorems.
-- - Handler: the interface `ScimStorage` and the methods of `ScimHandler` for single resources
--   and bulk steps; Handler/Requested its methods for whole requests. Handler/Preserves and
--   Handler/Kept show what requests keep, Handler/InMemory fills the interface with the storage
--   in memory, Handler/Conditional and Handler/Steps are about conditional writes and the bulk
--   loop.
-- - AsyncHandler: the coroutines of `AsyncScimHandler`, as programs that await a call of the
--   storage or are done, and the record `ImmediateStorage`, an `AsyncScimStorage`
--   (scim2_server/storage.py) whose methods await nothing and whose `operation` encloses
--   nothing; AsyncHandler/Resources, AsyncHandler/BulkRun and AsyncHandler/Requested hold its
--   methods. AsyncHandler/Alone has `AsyncInMemoryStorage` (scim2_server/memory.py), and with
--   AsyncHandler/BulkAlone and AsyncHandler/Refines shows what a coroutine does alone.
--   AsyncHandler/Turns is the event loop, which interleaves the calls of any number of
--   coroutines; AsyncHandler/Guarded, AsyncHandler/Optimistic, AsyncHandler/Effects and
--   AsyncHandler/Atomic follow one request in it, AsyncHandler/EventLoop holds what the loop
--   keeps, AsyncHandler/Counted and AsyncHandler/Ending count its turns.
-- - Applications: the common parts of the web applications (scim2_server/applications/base.py);
--   Applications/Wsgi and Applications/Asgi the two applications, Applications/Tenants the
--   `TenantDispatcher`, Applications/Forwarded the `ForwardedHeaders`. Applications/Limited,
--   Applications/Bodies, Applications/Received and Applications/Reads are about the body of a
--   request, Applications/Served about the answers, Applications/Tenants/Kept and
--   Applications/Tenants/Urls about tenants.
-- - TestServer: the application of the `scim2-server` command
--   (scim2_server/testserver/application.py), and TestServer/Separated and TestServer/Accepted
--   the requests that it accepts.
-- - Cursors: the class `Cursors` of scim2_server/cursor.py, with the cipher, JSON and base64 as
--   the parameter `Codec`; its clock counts microseconds. Cursors/Opened is about what a sealed
--   cursor opens to.
--
-- A text is the list of its codes. A step of a handler is a function from a storage to an
-- outcome and a storage. A coroutine of the asynchronous handler is a finite tree of calls, so
-- it needs no fuel; each call of `AsyncInMemoryStorage` awaits nothing, so the event loop runs
-- it as one step. What scim2_models computes is a parameter: the record `Attributes` of Memory
-- holds the unique attributes of a resource, their values and the validation; the record
-- `Library` of Service holds the validation of bodies, the application of a PUT or a PATCH, the
-- references of a resource, the string methods of Python on Unicode, the sealing of cursors, and
-- the methods that an application overrides, `me_target`, `me_creation_type` and `authorize`.
-- `check_auth` and `get_subject` are fields of `BaseApplication`. What wsgiref, urllib, json and
-- base64 compute are fields of the records `Library` of the two applications and of
-- `StaticCredentials`. `error_response` looks a status up in the members of Python's
-- `HTTPStatus`, and `decode` of `StaticCredentials` may raise what `b64decode` raises. The lock
-- of the storage serializes its operations, so each is one function from state to state; the
-- clock and the generated identifiers are arguments. A date is a number.
--
-- Not modelled: asynchronous storages whose methods wait, and `operation` of the storages that
-- open a transaction in it; the filters of the storage in memory, which are parameters of its
-- search (Memory/Search), as is the page there; the setter of its resources; the command line of
-- the test server, the test suite for storages and the loading of the default JSON documents,
-- which are input and output around the library; the overriding of methods other than those
-- named above. The messages of exceptions are left out.
pub mod Base
pub mod Routing
pub mod Conditions
pub mod Models
pub mod Bulk
pub mod Memory
pub mod Cursors
pub mod Requests
pub mod Service
pub mod Handler
pub mod AsyncHandler
pub mod Applications
pub mod TestServer
