-- ===== src/Applications/Wsgi.antt =====
-- scim2_server/applications/wsgi.py: `WSGIApplication`.
use scim2_server.Base.Dict
use scim2_server.Base.Dict.{Dict}
use scim2_server.Requests.{ScimRequest, ScimResponse, Body}
use scim2_server.Service.{or_empty}
use scim2_server.Service.Routes.{max_body_size}
use scim2_server.Handler.{Act, lift, ◌>>>◌, ScimStorage}
use scim2_server.Handler.Requested.{handle}
use scim2_server.Applications.{
  BaseApplication, version_prefix, remove_prefix, split_path, authenticate, answer,
}
use scim2_server.Base.{
  ℕ, ◌+◌, Bool, false, not, Option, none, some, List, [], ◌∷◌, ◌++◌, map, ltb, if◌then◌else◌, ◌==◌,
  nat_eq, Text, text_eq, option_text_eq, codes, Outcome, ok, ◌>>=◌, rstrip, is_slash, take, nat_beq,
  starts_with,
}

-- The environment of a WSGI request: its variables, of which a server always gives the method, and
-- the input that the client sends.
pub record WsgiEnvironment : Type 0 where
  pub variables : Dict Text Text
  pub request_method : Text
  pub input_terminated : Bool
  pub input : List ℕ

-- `environ.get(name, "")`
abbrev pub variable : WsgiEnvironment → Text → Text
variable environ name = or_empty (Dict.get environ.variables name)

-- What Python's library computes: `application_uri` of wsgiref, `dict(parse_qsl(text,
-- keep_blank_values=True))`, `int`, which gives `none` for a negative number, and the bytes of the JSON of a body.
pub record Library (P : Type 0) : Type 0 where
  pub application_uri : WsgiEnvironment → Text
  pub parse_query : Text → Dict Text Text
  pub int : Text → Outcome (Option ℕ)
  pub phrase : ℕ → Text
  pub dumps : Body P → List ℕ
  pub str : ℕ → Text

-- `input.read(size)`: a negative size reads up to the end.
abbrev pub read : List ℕ → Option ℕ → List ℕ
read input none = input
read input (some size) = take size input

-- What is passed to `start_response`, and the chunks of the body.
pub record Sent : Type 0 where
  pub status : Text
  pub headers : Dict Text Text
  pub chunks : List (List ℕ)

unfoldable pub send_response : {P : Type 0} → Library P → ScimResponse P → Sent
send_response library response = record {
  status = library.str response.status ++ (b' ' ∷ library.phrase response.status);
  headers = response.headers;
  chunks = elim response.body [ none ↦ [] | some body ↦ library.dumps body ] ∷ [];
}

-- `key.removeprefix("HTTP_").replace("_", "-")`
abbrev pub header_name : Text → Text
header_name key = map (λ c. if nat_beq c b'_' then b'-' else c) (remove_prefix key (codes "HTTP_"))

-- The headers of `read_request`, from the items of the environment.
unfoldable pub headers_of : Dict Text Text → Dict Text Text → Dict Text Text
unfolding remove_prefix
headers_of [] headers = headers
headers_of ((key, value) ∷ items) headers =
    headers_of items (
      if starts_with key (codes "HTTP_") then Dict.put headers (header_name key) value else headers)

-- `if environ.get(name)`
abbrev pub is_given : Option Text → Bool
is_given none = false
is_given (some value) = not (value == [])

abbrev pub content_headers : WsgiEnvironment → Dict Text Text → Dict Text Text
content_headers environ headers =
    if is_given (Dict.get environ.variables (codes "CONTENT_TYPE"))
    then Dict.put headers (codes "Content-Type") (variable environ (codes "CONTENT_TYPE"))
    else headers

-- `if limit is not None and (size < 0 or size > limit): size = limit + 1`
abbrev pub limited : Option ℕ → Option ℕ → Option ℕ
limited none size = size
limited (some limit) none = some (limit + 1)
limited (some limit) (some size) = if ltb limit size then some (limit + 1) else some size

module _ {P D J C : Type 0} (app : BaseApplication P D J C) (library : Library P) where
  unfoldable pub get_base_url : WsgiEnvironment → Text
  get_base_url environ = rstrip is_slash (library.application_uri environ) ++ version_prefix

  -- The size in `read_body` before the limit, or `none` when the body counts as empty.
  abbrev pub body_size : WsgiEnvironment → Outcome (Option (Option ℕ))
  body_size environ =
      if is_given (Dict.get environ.variables (codes "CONTENT_LENGTH"))
      then (library.int (variable environ (codes "CONTENT_LENGTH")) >>= λ size. ok (some size))
      else if environ.input_terminated
      then ok (some none)
      else ok none

  unfoldable pub read_body : WsgiEnvironment → ScimRequest → Outcome (List ℕ)
  read_body environ r = body_size environ >>= λ size. ok (elim size [
    | none ↦ []
    | some size ↦ read environ.input (limited (max_body_size app.service r) size)
  ])

  -- The request, before its body is read.
  unfoldable pub empty_request : WsgiEnvironment → ScimRequest
  unfolding get_base_url headers_of
  empty_request environ = record {
    method = environ.request_method;
    base_url = get_base_url environ;
    path = split_path (variable environ (codes "PATH_INFO"));
    query = library.parse_query (variable environ (codes "QUERY_STRING"));
    headers = content_headers environ (headers_of environ.variables []);
    body = [];
    subject = none;
  }

  unfoldable pub read_request : WsgiEnvironment → Outcome ScimRequest
  unfolding empty_request read_body
  read_request environ =
      let request = empty_request environ in
      read_body environ request >>= λ body. ok (record request { body = body })

module _ {P D J C S : Type 0} (app : BaseApplication P D J C) (storage : ScimStorage P C S) where
  unfoldable pub dispatch_request : ScimRequest → Act S (ScimResponse P)
  dispatch_request r = lift (authenticate app r) >>> λ known. handle app.service storage known

  unfoldable pub serve : ScimRequest → Act S (ScimResponse P)
  unfolding dispatch_request
  serve r s = let (outcome, s') = dispatch_request r s in (answer app r outcome, s')

  -- `__call__`; what `read_request` raises reaches the server.
  unfoldable pub call : Library P → WsgiEnvironment → Act S Sent
  unfolding read_request serve send_response
  call library environ = lift (read_request app library environ) >>> λ r.
      serve r >>> λ response. lift (ok (send_response library response))
