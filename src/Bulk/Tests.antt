-- ===== src/Bulk/Tests.antt =====
-- The plan of a concrete bulk request: the first operation references the resource that the second
-- creates.
use scim2_server.Models.{text, model, field, end, post, BulkOperation}
use scim2_server.Base.Dict
use scim2_server.Bulk.{
  references, resolve_operation, replace_bulk_ids, replace_items, replace_fields, replace_path,
  replace_segments, replace_text, reference_of,
}
use scim2_server.Bulk.Invariant.{count}
use scim2_server.Bulk.Before.{IsOrdered}
use scim2_server.Bulk.Plan.{plan, setdefault, dependencies, positions, read_creations}
use scim2_server.Bulk.Schedule.{depends_on, plan-once, plan-IsOrdered}
use scim2_server.Base.{
  ℕ, zero, suc, ◌<◌, ◌≡◌, none, some, List, [], ◌∷◌, arith, All, codes, text_beq,
}

abbrev group : BulkOperation
group = record {
  method = some post;
  bulk_id = some (codes "g");
  version = none;
  path = some (codes "/Groups");
  payload = model (field (codes "value") (text (codes "bulkId:u")) end);
  status = 0;
  response = none;
}

abbrev user : BulkOperation
user = record {
  method = some post;
  bulk_id = some (codes "u");
  version = none;
  path = some (codes "/Users");
  payload = model end;
  status = 0;
  response = none;
}

abbrev operations : List BulkOperation
operations = group ∷ user ∷ []

abbrev rank : ℕ → ℕ
rank zero = 1
rank (suc i) = 0

plan-once_example : count 1 (plan operations none).steps ≡ 1
plan-once_example = plan-once operations none 1

ranked : (i : ℕ) → All (λ d. rank d < rank i) (depends_on operations i)
unfolding dependencies positions read_creations references setdefault Dict.get Dict.put
    resolve_operation replace_bulk_ids replace_items replace_fields replace_path replace_segments
    replace_text reference_of text_beq
ranked zero = (omega arith, tt)
ranked (suc zero) = tt
ranked (suc (suc i)) = tt

plan-IsOrdered_example : IsOrdered (depends_on operations) [] (plan operations none).steps
plan-IsOrdered_example = plan-IsOrdered operations none rank ranked
