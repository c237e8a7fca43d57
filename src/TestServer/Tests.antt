-- ===== src/TestServer/Tests.antt =====
-- The application of the `scim2-server` command at a concrete request.
use scim2_server.Requests.{ScimRequest}
use scim2_server.Service.Tests.{request}
use scim2_server.TestServer.{StaticCredentials, check_auth}
use scim2_server.TestServer.Accepted.{AcceptsAll, Checked, authorization, check_auth-cases}
use scim2_server.Base.{◌≡◌, some, [], ◌∷◌, nat_eq, text_eq, option_text_eq, codes, ok, ◌⊎◌}

abbrev one_user : StaticCredentials
one_user = record {
  bearer_tokens = [];
  basic_credentials = (codes "user", codes "secret") ∷ [];
  lower = λ t. t;
  decode = λ t. ok (some t);
}

abbrev signed : ScimRequest
signed = record request { headers = (codes "Authorization", codes "basic user:secret") ∷ [] }

check_auth-cases_example :
    (AcceptsAll one_user × (check_auth one_user signed ≡ ok tt))
    ⊎ (¬ AcceptsAll one_user)
      × Checked one_user (authorization one_user signed) (check_auth one_user signed)
check_auth-cases_example = check_auth-cases one_user signed
