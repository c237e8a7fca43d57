-- ===== src/Applications/Asgi.antt =====
-- scim2_server/applications/asgi.py: `ASGIApplication`.
use scim2_server.Base.Dict.{Dict}
use scim2_server.Requests.{ScimRequest, ScimResponse, Body}
use scim2_server.Service.Routes.{max_body_size}
use scim2_server.Applications.{
  BaseApplication, version_prefix, remove_prefix, split_path, authenticate, answer, cut,
}
use scim2_server.AsyncHandler.{Coroutine, done, ◌>>>=◌, attempt, ImmediateStorage}
use scim2_server.AsyncHandler.Requested.{handle}
use scim2_server.Base.{
  ℕ, Bool, true, false, not, Option, none, some, List, [], ◌∷◌, ◌++◌, if◌then◌else◌, ◌==◌, nat_eq,
  Text, text_eq, option_text_eq, length, codes, ok, leb,
}

-- The scope of an ASGI request, with its bytes decoded.
pub record Scope : Type 0 where
  pub method : Text
  pub scheme : Text
  pub path : Text
  pub root_path : Text
  pub query_string : Text
  pub headers : List (Text × Text)
  pub server : Option (Text × ℕ)

-- `http.request`
pub record Message : Type 0 where
  pub body : List ℕ
  pub more_body : Bool

-- `dict(parse_qsl(text, keep_blank_values=True))`, the text of a number, and the bytes of the JSON of a body.
pub record Library (P : Type 0) : Type 0 where
  pub parse_query : Text → Dict Text Text
  pub str : ℕ → Text
  pub dumps : Body P → List ℕ

-- The messages to the server.
pub data Reply : Type 0 where
  response_start : ℕ → Dict Text Text → Reply
  response_body : List ℕ → Reply
  startup_complete shutdown_complete : Reply

-- `dict(pairs).get(name)`: the last of the pairs counts.
unfoldable pub last_header : List (Text × Text) → Text → Option Text
last_header [] name = none
last_header ((key, value) ∷ pairs) name = elim (last_header pairs name) [
  | some later ↦ some later
  | none ↦ if key == name then some value else none
]

abbrev pub or_text : Option Text → Text → Text
or_text none text = text
or_text (some t) text = t

-- `if limit is None or len(body) <= limit: body += message.get("body", b"")`
abbrev pub extended : Option ℕ → List ℕ → List ℕ → List ℕ
extended none body more = body ++ more
extended (some limit) body more = if leb (length body) limit then body ++ more else body

-- The loop of `read_request`, up to the last message. Its end waits for a message that has not come.
unfoldable pub read_messages : Option ℕ → List Message → List ℕ → Option (List ℕ)
read_messages limit [] body = none
read_messages limit (message ∷ messages) body =
    let body' = extended limit body message.body in
    let rest = read_messages limit messages body' in if message.more_body then rest else some body'

-- The messages of `serve_lifespan`.
pub data LifespanEvent : Type 0 where
  startup shutdown : LifespanEvent

-- Its answers to the events that it received, and whether it has returned.
unfoldable pub serve_lifespan : List LifespanEvent → List Reply × Bool
serve_lifespan [] = ([], false)
serve_lifespan (startup ∷ events) =
    let (replies, returned) = serve_lifespan events in (startup_complete ∷ replies, returned)
serve_lifespan (shutdown ∷ events) = (shutdown_complete ∷ [], true)

unfoldable pub send_response : {P : Type 0} → Library P → ScimResponse P → List Reply
send_response library response =
    response_start response.status response.headers
    ∷ response_body (elim response.body [ none ↦ [] | some body ↦ library.dumps body ])
    ∷ []

-- The host of `get_base_url`, from the header and the address of the server.
abbrev pub host_of : {P : Type 0} → Library P → Text → Option (Text × ℕ) → Text
host_of library named none = named
host_of library named (some (address, port)) =
    if named == [] then address ++ b':' ∷ library.str port else named

unfoldable pub get_base_url : {P : Type 0} → Library P → Scope → Text
unfolding last_header
get_base_url library scope =
    scope.scheme
    ++ codes "://"
    ++ host_of library (or_text (last_header scope.headers (codes "host")) []) scope.server
    ++ scope.root_path
    ++ version_prefix

unfoldable pub get_path : Scope → Text
unfolding remove_prefix
get_path scope =
    if not (scope.root_path == []) then remove_prefix scope.path scope.root_path else scope.path

module _ {P D J C : Type 0} (app : BaseApplication P D J C) (library : Library P) where
  -- The request, before its body is read.
  unfoldable pub empty_request : Scope → ScimRequest
  unfolding get_base_url get_path
  empty_request scope = record {
    method = scope.method;
    base_url = get_base_url library scope;
    path = split_path (get_path scope);
    query = library.parse_query scope.query_string;
    headers = scope.headers;
    body = [];
    subject = none;
  }

  -- `none` while the last message of the body has not come.
  unfoldable pub read_request : Scope → List Message → Option ScimRequest
  unfolding empty_request read_messages
  read_request scope messages =
      let request = empty_request scope in
      let limit = max_body_size app.service request in
      elim (read_messages limit messages []) [
        | none ↦ none
        | some body ↦ some (record request { body = cut limit body })
      ]

module _ {P D J C S : Type 0} (app : BaseApplication P D J C)
    (storage : ImmediateStorage P C S) where
  unfoldable pub dispatch_request : ScimRequest → Coroutine P C (ScimResponse P)
  dispatch_request r = done (authenticate app r) >>>= λ known. handle app.service storage known

  unfoldable pub serve : ScimRequest → Coroutine P C (ScimResponse P)
  unfolding dispatch_request
  serve r = attempt (dispatch_request r) (λ outcome. done (answer app r outcome))

  -- `__call__` of a request, which waits while the last message of the body has not come. A lifespan
  -- is served by `serve_lifespan`.
  unfoldable pub call : Library P → Scope → List Message → Option (Coroutine P C (List Reply))
  unfolding read_request serve send_response
  call library scope messages = elim (read_request app library scope messages) [
    | none ↦ none
    | some r ↦ some (serve r >>>= λ response. done (ok (send_response library response)))
  ]
