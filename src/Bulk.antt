-- ===== src/Bulk.antt =====
-- scim2_server/bulk.py: the references between the operations of a bulk request, and the plan that
-- orders them.
pub mod Walk
mod Invariant
mod Rounds
pub mod Once
pub mod Before
pub mod Plan
pub mod Schedule
mod Tests
use scim2_server.Models.{
  Value, text, items, dict, model, other, Values, nil, cons, Fields, end, field, BulkOperation,
}
use scim2_server.Base.{
  Option, none, some, List, [], ◌∷◌, ◌++◌, if◌then◌else◌, drop, nat_eq, Text, codes, text_eq,
  option_text_eq, split, join, starts_with, Outcome, ok, err,
}

abbrev pub bulk_id_prefix : Text
bulk_id_prefix = codes "bulkId:"

-- A callback that may keep a state and may raise: `collect` does the first, `replace` the second.
abbrev pub Run : Type 0 → Type 0 → Type 0
Run S A = S → Outcome (A × S)

module _ {S : Type 0} where
  abbrev pub pure : {A : Type 0} → A → Run S A
  pure a s = ok (a, s)

  abbrev pub and_then : {A B : Type 0} → Run S A → (A → Run S B) → Run S B
  and_then m f s = elim (m s) [ ok (a, s') ↦ f a s' | err e ↦ err e ]

abbrev pub fmap : {S A B : Type 0} → (A → B) → Run S A → Run S B
fmap f m s = elim (m s) [ ok (a, s') ↦ ok (f a, s') | err e ↦ err e ]

-- `value.removeprefix(BULK_ID_PREFIX)`, if the value starts with it.
unfoldable pub reference_of : Text → Option Text
unfolding starts_with
reference_of value = if starts_with value bulk_id_prefix then some (drop 7 value) else none

unfoldable pub replace_text : {S : Type 0} → (Text → Run S Text) → Text → Run S Text
replace_text replace value = elim (reference_of value) [
  | none ↦ pure value
  | some bulk_id ↦ replace bulk_id
]

-- A value without references comes back equal: values are not changed in place, so whether it is
-- the same object is no question here.
unfoldable mutual
  unfolding replace_text

  pub replace_bulk_ids : {S : Type 0} → (Text → Run S Text) → Value → Run S Value
  replace_bulk_ids replace (text s) = fmap text (replace_text replace s)
  replace_bulk_ids replace (items vs) = fmap items (replace_items replace vs)
  replace_bulk_ids replace (dict fs) = fmap dict (replace_fields replace fs)
  replace_bulk_ids replace (model fs) = fmap model (replace_fields replace fs)
  replace_bulk_ids replace (other n) = pure (other n)

  pub replace_items : {S : Type 0} → (Text → Run S Text) → Values → Run S Values
  replace_items replace nil = pure nil
  replace_items replace (cons v vs) =
      and_then (replace_bulk_ids replace v) (λ v'. fmap (cons v') (replace_items replace vs))

  pub replace_fields : {S : Type 0} → (Text → Run S Text) → Fields → Run S Fields
  replace_fields replace end = pure end
  replace_fields replace (field name v fs) =
      and_then (replace_bulk_ids replace v) (λ v'. fmap (field name v') (replace_fields replace fs))

module _ {S : Type 0} (replace : Text → Run S Text) where
  unfoldable pub replace_segments : List Text → Run S (List Text)
  unfolding replace_text
  replace_segments [] = pure []
  replace_segments (s ∷ ss) =
      and_then (replace_text replace s) (λ s'. fmap (λ rest. s' ∷ rest) (replace_segments ss))

  unfoldable pub replace_path : Option Text → Run S (Option Text)
  unfolding replace_segments split join
  replace_path none = pure none
  replace_path (some path) =
      fmap (λ segments. some (join (codes "/") segments)) (replace_segments (split b'/' path))

  unfoldable pub resolve_operation : BulkOperation → Run S BulkOperation
  unfolding replace_path replace_bulk_ids
  resolve_operation operation = and_then (replace_path operation.path) (λ path.
      fmap (λ payload. record operation { path = path; payload = payload })
        (replace_bulk_ids replace operation.payload))

-- The callback of `references`
abbrev pub collect : Text → Run (List Text) Text
collect bulk_id bulk_ids = ok (bulk_id, bulk_ids ++ bulk_id ∷ [])

abbrev pub final_state : {S A : Type 0} → S → Outcome (A × S) → S
final_state s (ok (a, s')) = s'
final_state s (err e) = s

-- `collect` never raises, so the other case is not met.
unfoldable pub references : BulkOperation → List Text
unfolding resolve_operation
references operation = final_state [] (resolve_operation collect operation [])
