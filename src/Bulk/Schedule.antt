-- ===== src/Bulk/Schedule.antt =====
-- The steps of the `BulkPlan` of a request.
use scim2_server.Base.Dict
use scim2_server.Base.Dict.{Dict, get-put}
use scim2_server.Models.{is_post, BulkOperation}
use scim2_server.Bulk.{references}
use scim2_server.Bulk.Invariant.{Low, count}
use scim2_server.Bulk.Once.{plan_steps-once}
use scim2_server.Bulk.Before.{IsOrdered, plan_steps-IsOrdered}
use scim2_server.Bulk.Plan.{
  setdefault, note_creation, read_creations, positions, dependencies, plan,
}
use scim2_server.Base.{
  ℕ, suc, ◌+◌, ◌<◌, ◌≤◌, ◌≡◌, inl, inr, Option, some, List, [], ◌∷◌, arith, ltb, if◌then◌else◌,
  Bool-cases, Option-cases, All, get_elem?, nat_eq, Text, text_eq, length,
}

abbrev Within : ℕ → Dict Text ℕ → Type 0
Within n creations = (k : Text) (v : ℕ) → Dict.get creations k ≡ some v → v < n

setdefault-Within :
    (creations : Dict Text ℕ) (k : Text) (i n : ℕ)
    → i < n
    → Within n creations
    → Within n (setdefault creations k i)
unfolding setdefault
setdefault-Within creations k i n lt h j v e = elim (Option-cases (Dict.get creations k)) [
  | inl missing ↦ ground (arith, missing, get-put creations k i j, h j v)
  | inr (old, there) ↦ ground (arith, there, h j v)
]

note_creation-Within :
    (o : BulkOperation) (creations : Dict Text ℕ) (i n : ℕ)
    → i < n
    → Within n creations
    → Within n (note_creation o i creations)
note_creation-Within o creations i n lt h = elim (Option-cases o.bulk_id) [
  | inl e ↦ rw e h
  | inr (bulk_id, e) ↦ rw e (elim (Bool-cases (is_post o.method)) [
    | inl p ↦ rw p (setdefault-Within creations bulk_id i n lt h)
    | inr p ↦ rw p h
  ])
]

read_creations-Within :
    (i n : ℕ) (operations : List BulkOperation) (creations : Dict Text ℕ)
    → i + length operations ≤ n
    → Within n creations
    → Within n (read_creations i operations creations)
unfolding read_creations
read_creations-Within i n [] creations le h = h
read_creations-Within i n (o ∷ rest) creations le h =
    read_creations-Within (suc i) n rest (note_creation o i creations) (omega arith)
      (note_creation-Within o creations i n (omega arith) h)

positions-Low :
    (n : ℕ) (creations : Dict Text ℕ) (bulk_ids : List Text)
    → Within n creations
    → Low n (positions creations bulk_ids)
unfolding positions
positions-Low n creations [] h = tt
positions-Low n creations (b ∷ bs) h = elim (Option-cases (Dict.get creations b)) [
  | inl e ↦ rw (e, positions) (positions-Low n creations bs h)
  | inr (v, e) ↦ rw (e, positions) (h b v e, positions-Low n creations bs h)
]

-- The positions that an operation of the request depends on, after the constructor of the plan.
abbrev pub depends_on : List BulkOperation → ℕ → List ℕ
depends_on operations = dependencies operations (read_creations 0 operations [])

nothing-Within : (n : ℕ) → Within n []
unfolding Dict.get
nothing-Within n k v e = cc

depends_on-Low :
    (operations : List BulkOperation) (i : ℕ) → Low (length operations) (depends_on operations i)
unfolding dependencies
depends_on-Low operations i = elim (Option-cases (get_elem? operations i)) [
  | inl e ↦ rw (e, dependencies) tt
  | inr (o, e) ↦
      rw (e, dependencies)
        (positions-Low (length operations) (read_creations 0 operations []) (references o) (
          read_creations-Within 0 (length operations) operations [] (omega arith)
            (nothing-Within (length operations))))
]

-- A plan has exactly one step for each operation of its request, whatever the references between
-- them: also references in a circle, to nothing, or to a bulkId that two creations share.
pub plan-once :
    (operations : List BulkOperation) (fail_on_errors : Option ℕ) (i : ℕ)
    → count i (plan operations fail_on_errors).steps ≡ (if ltb i (length operations) then 1 else 0)
unfolding plan
plan-once operations f i =
    plan_steps-once (depends_on operations) (length operations) (depends_on-Low operations) i

-- Where the references have no circle, which a rank of the positions shows, each operation stands in
-- the plan behind every creation that it references.
pub plan-IsOrdered :
    (operations : List BulkOperation) (fail_on_errors : Option ℕ) (rank : ℕ → ℕ)
    → ((i : ℕ) → All (λ d. rank d < rank i) (depends_on operations i))
    → IsOrdered (depends_on operations) [] (plan operations fail_on_errors).steps
unfolding plan
plan-IsOrdered operations f rank acyclic =
    plan_steps-IsOrdered (depends_on operations) (length operations) rank
      (depends_on-Low operations) acyclic
