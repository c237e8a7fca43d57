-- ===== src/Bulk/Plan.antt =====
-- `BulkPlan` of bulk.py: its construction, and its methods.
use scim2_server.Base.Dict
use scim2_server.Base.Dict.{Dict}
use scim2_server.Models.{Resource, is_post, BulkOperation, BulkOutcome}
use scim2_server.Bulk.{Run, references, resolve_operation}
use scim2_server.Bulk.Walk.{plan_steps}
use scim2_server.Base.{
  ℕ, suc, ◌+◌, Bool, false, not, ◌&&◌, Option, none, some, List, [], ◌∷◌, map, ltb, leb,
  if◌then◌else◌, length, get_elem?, ◌==◌, nat_eq, option_beq, Text, codes, text_eq, option_text_eq,
  Outcome, ok, err, invalid_value, conflict,
}

pub record BulkPlan : Type 0 where
  pub operations : List BulkOperation
  pub fail_on_errors : Option ℕ
  pub results : Dict ℕ BulkOutcome
  pub created : Dict Text Resource
  pub errors : ℕ
  pub creations : Dict Text ℕ
  pub steps : List ℕ

-- `creations.setdefault(bulk_id, index)`
unfoldable pub setdefault : Dict Text ℕ → Text → ℕ → Dict Text ℕ
setdefault d k v = elim (Dict.get d k) [ none ↦ Dict.put d k v | some _ ↦ d ]

abbrev pub note_creation : BulkOperation → ℕ → Dict Text ℕ → Dict Text ℕ
note_creation operation index creations = elim operation.bulk_id [
  | none ↦ creations
  | some bulk_id ↦
      if is_post operation.method then setdefault creations bulk_id index else creations
]

-- The loop of the constructor, from a position on.
unfoldable pub read_creations : ℕ → List BulkOperation → Dict Text ℕ → Dict Text ℕ
read_creations index [] creations = creations
read_creations index (operation ∷ rest) creations =
    read_creations (suc index) rest (note_creation operation index creations)

-- `[creations[bulk_id] for bulk_id in bulk_ids if bulk_id in creations]`
unfoldable pub positions : Dict Text ℕ → List Text → List ℕ
positions creations [] = []
positions creations (bulk_id ∷ bulk_ids) =
    let rest = positions creations bulk_ids in
    elim (Dict.get creations bulk_id) [ none ↦ rest | some index ↦ index ∷ rest ]

-- Every index is one of the request.
unfoldable pub dependencies : List BulkOperation → Dict Text ℕ → ℕ → List ℕ
dependencies operations creations index = elim (get_elem? operations index) [
  | none ↦ []
  | some operation ↦ positions creations (references operation)
]

unfoldable pub plan : List BulkOperation → Option ℕ → BulkPlan
plan operations fail_on_errors =
    let creations = read_creations 0 operations [] in
    record {
      operations = operations;
      fail_on_errors = fail_on_errors;
      results = [];
      created = [];
      errors = 0;
      creations = creations;
      steps = plan_steps (dependencies operations creations) (length operations);
    }

unfoldable pub stopped : BulkPlan → Bool
stopped p =
    ltb 0 p.errors && elim p.fail_on_errors [ none ↦ false | some limit ↦ leb limit p.errors ]

unfoldable pub is_creation : BulkPlan → ℕ → Option Text → Bool
is_creation p index none = false
is_creation p index (some bulk_id) = elim (Dict.get p.creations bulk_id) [
  | none ↦ false
  | some i ↦ i == index
]

abbrev pub record_created : BulkPlan → ℕ → Option Text → Option Resource → Dict Text Resource
record_created p index (some bulk_id) (some resource) =
    if is_creation p index (some bulk_id) then Dict.put p.created bulk_id resource else p.created
record_created p index _ _ = p.created

-- `record` is a reserved word.
unfoldable pub record_outcome : BulkPlan → ℕ → BulkOutcome → Option Resource → BulkPlan
unfolding is_creation
record_outcome p index result resource =
    let p' : BulkPlan = record p { results = Dict.put p.results index result } in
    if leb 400 result.status
    then record p' { errors = p.errors + 1 }
    else record p' { created = record_created p index result.bulk_id resource }

insert_index : ℕ → List ℕ → List ℕ
insert_index i [] = i ∷ []
insert_index i (j ∷ js) = let rest = insert_index i js in if leb i j then i ∷ j ∷ js else j ∷ rest

sort_indices : List ℕ → List ℕ
unfolding insert_index
sort_indices [] = []
sort_indices (i ∷ is) = insert_index i (sort_indices is)

-- `[self.results[index] for index in indices]`, for indices of the results
results_at : Dict ℕ BulkOutcome → List ℕ → List BulkOutcome
results_at results [] = []
results_at results (i ∷ is) =
    let rest = results_at results is in
    elim (Dict.get results i) [ none ↦ rest | some result ↦ result ∷ rest ]

unfoldable pub outcomes : BulkPlan → List BulkOutcome
unfolding results_at sort_indices
outcomes p = results_at p.results (sort_indices (map (λ e. e.0) p.results))

-- The callback of `resolve`. Both of its errors are a `ConflictException`, with another detail. A
-- created resource has an identifier, and `str` of a text is that text.
unfoldable pub replace_created : BulkPlan → Text → Run (Unit {0}) Text
replace_created p bulk_id s = elim (Dict.get p.created bulk_id) [
  | none ↦ err conflict
  | some resource ↦ elim resource.id [ none ↦ ok (codes "None", s) | some id ↦ ok (id, s) ]
]

abbrev pub value_of : {A : Type 0} → Outcome (A × Unit {0}) → Outcome A
value_of (ok (a, s)) = ok a
value_of (err e) = err e

unfoldable pub resolve : BulkPlan → ℕ → BulkOperation → Outcome BulkOperation
unfolding is_creation resolve_operation replace_created
resolve p index operation =
    if is_post operation.method
      && not (option_beq text_eq operation.bulk_id none)
      && not (is_creation p index operation.bulk_id)
    then err invalid_value
    else value_of (resolve_operation (replace_created p) operation tt)
