-- ===== src/Applications/Tests.antt =====
-- The two applications at concrete requests.
use scim2_server.Base.Dict
use scim2_server.Base.Dict.{Dict}
use scim2_server.Routing as Routing
use scim2_server.Routing.{Operation, Target}
use scim2_server.Requests.{ScimRequest}
use scim2_server.Memory.{Storage}
use scim2_server.Memory.Valid.{empty}
use scim2_server.Memory.Tests.{policy}
use scim2_server.Service.Tests.{service}
use scim2_server.Service.Routes.{match_request, max_body_size, value_of_operation}
use scim2_server.Handler.{ScimStorage}
use scim2_server.Handler.Tests.{surroundings}
use scim2_server.Handler.InMemory.{in_memory}
use scim2_server.AsyncHandler.{run}
use scim2_server.AsyncHandler.Alone.{async_in_memory}
use scim2_server.Applications.{
  BaseApplication, accept_all, no_subject, split_path, remove_prefix, remove_suffix,
}
use scim2_server.Applications.Wsgi as Wsgi
use scim2_server.Applications.Wsgi.{WsgiEnvironment, body_size, variable}
use scim2_server.Applications.Asgi as Asgi
use scim2_server.Applications.Asgi.{Scope, Message}
use scim2_server.Applications.Reads.{Answers, AwaitsSame, wsgi-whole, asgi-whole}
use scim2_server.Applications.Received.{WasSent, joined_body}
use scim2_server.Applications.Served.{Served, serve-answers, serve-Runs}
use scim2_server.Applications.Tenants.{get_application}
use scim2_server.Applications.Tenants.Kept.{nothing, ask, get_application-same}
use scim2_server.Applications.Tenants.Urls.{Selection, select_tenant-Selection}
use scim2_server.Applications.Tenants.{select_tenant}
use scim2_server.Base.{
  ℕ, ◌≡◌, refl, Bool, true, false, none, some, List, [], ◌∷◌, nat_eq, Text, text_eq, option_text_eq,
  codes, ok, err, rstrip, lstrip, strip, split, join, unauthorized, starts_with, text_beq,
}

abbrev application : BaseApplication Bool ℕ (List Text) ℕ
application = record {
  service = service;
  propagate_exceptions = false;
  check_auth = accept_all;
  get_subject = no_subject;
}

abbrev storage : ScimStorage Bool ℕ (Storage Text Text)
storage = in_memory policy surroundings

abbrev python : Wsgi.Library Bool
python = record {
  application_uri = λ environ. codes "https://example.com/";
  parse_query = λ t. [];
  int = λ t. ok (some 3);
  phrase = λ n. codes "OK";
  dumps = λ b. [];
  str = λ n. [];
}

-- A bulk request, which the service does not support, with a body of three bytes.
abbrev environ : WsgiEnvironment
environ = record {
  variables = (codes "PATH_INFO", codes "/v2/Bulk") ∷ (codes "CONTENT_LENGTH", codes "3") ∷ [];
  request_method = codes "POST";
  input_terminated = false;
  input = 1 ∷ 2 ∷ 3 ∷ [];
}

abbrev bulk_request : ScimRequest
bulk_request = record {
  method = codes "POST";
  base_url = codes "https://example.com/v2";
  path = codes "/Bulk";
  query = [];
  headers = [];
  body = 1 ∷ [];
  subject = none;
}

environ-read : Wsgi.read_request application python environ ≡ ok bulk_request
unfolding Wsgi.read_request Wsgi.empty_request Wsgi.get_base_url Wsgi.headers_of Wsgi.read_body
    split_path remove_prefix remove_suffix max_body_size match_request value_of_operation
    Routing.segments_of Routing.match_part Routing.match_parts Routing.match_pattern
    Routing.match_routes Routing.match text_beq starts_with rstrip lstrip strip split join Dict.get
    Dict.put
environ-read = refl

wsgi-whole_example :
    (whole : List ℕ) × WasSent python environ whole × Answers application storage bulk_request whole
wsgi-whole_example = wsgi-whole application storage python environ bulk_request environ-read

abbrev asgi_python : Asgi.Library Bool
asgi_python = record { parse_query = λ t. []; str = λ n. codes "443"; dumps = λ b. [] }

abbrev scope : Scope
scope = record {
  method = codes "POST";
  scheme = codes "https";
  path = codes "/v2/Bulk";
  root_path = [];
  query_string = [];
  headers = [];
  server = some (codes "example.com", 443);
}

abbrev chunks : List Message
chunks =
    record { body = 1 ∷ []; more_body = true }
    ∷ record { body = 2 ∷ 3 ∷ []; more_body = false }
    ∷ []

abbrev asgi_request : ScimRequest
asgi_request = record bulk_request { base_url = codes "https://example.com:443/v2" }

scope-read : Asgi.read_request application asgi_python scope chunks ≡ some asgi_request
unfolding Asgi.read_request Asgi.empty_request Asgi.get_base_url Asgi.get_path Asgi.last_header
    Asgi.read_messages split_path remove_prefix remove_suffix max_body_size match_request
    value_of_operation Routing.segments_of Routing.match_part Routing.match_parts
    Routing.match_pattern Routing.match_routes Routing.match text_beq starts_with rstrip lstrip
    strip split join
scope-read = refl

asgi-whole_example :
    (whole : List ℕ) × (joined_body chunks ≡ some whole)
    × AwaitsSame application (async_in_memory storage) asgi_request whole
asgi-whole_example =
    asgi-whole application (async_in_memory storage) asgi_python scope chunks asgi_request
      scope-read

serve-answers_example :
    Served application bulk_request
      (Wsgi.dispatch_request application storage bulk_request empty).0
      (Wsgi.serve application storage bulk_request empty).0
serve-answers_example = serve-answers application storage bulk_request empty

-- An application that refuses every client.
abbrev closed : BaseApplication Bool ℕ (List Text) ℕ
closed = record application { check_auth = λ r. err unauthorized }

abbrev bulk_target : Target
bulk_target = record { operation = Operation.bulk; endpoint = none; resource_id = none; me = false }

serve-Runs_example :
    run
      (async_in_memory storage)
      (Asgi.serve application (async_in_memory storage) bulk_request)
      empty
    ≡ Wsgi.serve application storage bulk_request empty
serve-Runs_example = serve-Runs application storage bulk_request empty

first_asked : (get_application {A = ℕ} (some 1) (codes "a") []).0 ≡ some 1
unfolding get_application Dict.get
first_asked = refl

abbrev later : Dict Text ℕ
later =
    (get_application {A = ℕ} (some 2) (codes "b")
      (get_application {A = ℕ} (some 1) (codes "a") []).1).1

get_application-same_example : get_application (some 3) (codes "a") later ≡ (some 1, later)
get_application-same_example =
    get_application-same (some 1) (some 3) (codes "a") [] later 1 first_asked
      (ask (some 2) (codes "b") nothing)

tenant_path : variable environ (codes "PATH_INFO") ≡ b'/' ∷ codes "v2/Bulk"
unfolding Dict.get text_beq
tenant_path = refl

select_tenant-Selection_example : Selection environ (select_tenant environ)
select_tenant-Selection_example = select_tenant-Selection environ (codes "v2/Bulk") tenant_path
