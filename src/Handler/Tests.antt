-- ===== src/Handler/Tests.antt =====
-- The handler at concrete requests.
use scim2_server.Models.{Resource, Meta, post, other, BulkOperation}
use scim2_server.Bulk.Plan.{BulkPlan, stopped}
use scim2_server.Memory.Tests.{policy}
use scim2_server.Memory.Valid.{IsValid, empty, new, Reached-IsValid}
use scim2_server.Service.Tests.{service, request, nobody}
use scim2_server.Handler.{ScimStorage, run_steps}
use scim2_server.Handler.Requested.{handle}
use scim2_server.Handler.InMemory.{Surroundings, in_memory, handle-IsValid}
use scim2_server.Handler.Conditional.{versioned}
use scim2_server.Conditions.Lists.{list_header}
use scim2_server.Routing as Routing
use scim2_server.Routing.{Operation, Target}
use scim2_server.Requests.{ScimRequest}
use scim2_server.Handler.Steps.{run_steps-errors}
use scim2_server.Base.{
  ℕ, ◌+◌, ◌≤◌, ◌≡◌, refl, Bool, true, false, none, some, [], ◌∷◌, arith, nat_eq, Text, text_eq,
  option_text_eq, codes, ok, err, not_found,
}

abbrev pub surroundings : Surroundings Text Text ℕ
surroundings = record {
  generate_id = λ n. codes "1";
  clock = λ n. n;
  query = λ r c. record {
    equality = none;
    matches = λ found r. true;
    page = λ found. record { total = some 0; resources = found; next = none; previous = none };
  };
}

handle-IsValid_example :
    IsValid policy (handle service (in_memory policy surroundings) request empty).1
handle-IsValid_example =
    handle-IsValid policy service surroundings request empty (Reached-IsValid policy new)

abbrev meta : Meta
meta = record {
  resource_type = some (codes "User");
  created = none;
  last_modified = none;
  location = none;
  version = none;
}

abbrev user : Resource
user = versioned (record nobody { id = some (codes "1") }) meta (codes "3")

-- A storage that always gives the same resource.
abbrev one_user : ScimStorage Bool ℕ ℕ
one_user = record {
  get = λ rt id p s. (ok user, s);
  search = λ rts r c s. (err not_found, s);
  create = λ rt r s. (ok r, s + 1);
  update = λ rt r v s. (ok r, s + 1);
  delete = λ rt id v s. (ok tt, s + 1);
  supports_cursors = true;
  search_takes_position = true;
  get_takes_response_parameters = true;
}

abbrev delete_request : ScimRequest
delete_request = record request {
  method = codes "DELETE";
  path = codes "/Users/1";
  headers = (codes "If-Match", list_header (codes "1" ∷ codes "2" ∷ [])) ∷ [];
}

abbrev delete_target : Target
delete_target = record {
  operation = Operation.delete;
  endpoint = some (codes "Users");
  resource_id = some (codes "1");
  me = false;
}

abbrev failing : BulkOperation
failing = record {
  method = some post;
  bulk_id = some (codes "a");
  version = none;
  path = some (codes "/");
  payload = other 0;
  status = 400;
  response = some 400;
}

-- One operation failed, and the client accepts one error.
abbrev bulk_plan : BulkPlan
bulk_plan = record {
  operations = failing ∷ failing ∷ [];
  fail_on_errors = some 1;
  results = [];
  created = [];
  errors = 1;
  creations = [];
  steps = 0 ∷ 1 ∷ [];
}

bulk_plan-ends : (run_steps service one_user request (1 ∷ []) bulk_plan 5).0 ≡ ok bulk_plan
unfolding run_steps stopped
bulk_plan-ends = refl

run_steps-errors_example : bulk_plan.errors ≤ 1
run_steps-errors_example =
    run_steps-errors service one_user request (1 ∷ []) bulk_plan bulk_plan 5 0 refl (omega arith)
      bulk_plan-ends
