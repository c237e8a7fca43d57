-- ===== src/Memory/Equal.antt =====
-- The index of equal values: what each update of it adds and removes.
pub mod Described
pub mod Shape
pub mod Kept
pub mod Used
pub mod Begun
pub mod Searched
pub mod Answered
use scim2_server.Base.Dict
use scim2_server.Base.Dict.{Dict, get-put, get-pop}
use scim2_server.Models.{Resource, ResourceType}
use scim2_server.Memory.{Key, key_eq, same_key, same_key_iff, Attributes, Storage, inner, get_in}
use scim2_server.Memory.Store.{
  Equalities, missing_eq, discard_id, add_id, ids_at, set_ids, discard_equal, put_in, pop_in,
}
use scim2_server.Memory.Found.{found, inner-put, inner-eq}
use scim2_server.Base.{
  ℕ, zero, suc, ◌+◌, ◌<◌, ◌≤◌, ◌≡◌, refl, sym, ap, ◌∙◌, subst, ◌↔◌, inl, inr, Bool, true, false,
  not, ◌&&◌, ◌||◌, Option, none, some, List, [], ◌∷◌, ◌++◌, map, arith, ltb, if◌then◌else◌,
  Bool-cases, Option-cases, All, contains, ◌==◌, ==_iff, ==_refl, nat_eq, Text, text_eq,
  option_text_eq, Eq, length, codes, keep, Outcome, ok, err, uniqueness, not_found,
  precondition_failed, ◌>>=◌, ◌>>◌, >>=-eq-ok, rstrip, lstrip, strip, is_slash, is_space, raise_if,
  assertion_error, runtime_error, forbidden, Exception, not_implemented, invalid_value,
  payload_too_large, value_error, unsupported_media_type, method_not_allowed, scim_error,
  type_error, split, join, take, drop, leb, nat_beq, type_error, unauthorized, invalid_syntax,
  invalid_cursor, invalid_count, expired_cursor, conflict, option_beq, Outcome-cases, ◌≢◌, min,
  get_elem?, ◌⊎◌, ◌≢◌,
}

contains-discard_id :
    (id : Text) (ids : List Text) (i : Text)
    → contains (discard_id id ids) i ≡ contains ids i && not (id == i)
unfolding discard_id
contains-discard_id id [] i = refl
contains-discard_id id (j ∷ ids) i =
    ground (arith, contains-discard_id id ids i, ==_iff j id, ==_iff j i, ==_iff id i)

contains-add_id :
    (id : Text) (ids : List Text) (i : Text)
    → contains (add_id id ids) i ≡ contains ids i || id == i
unfolding add_id
contains-add_id id ids i = ground (arith, ==_iff id i)

module _ {B V : Type 0} ⦃eb : Eq B⦄ ⦃ev : Eq V⦄ where
  -- The type has an index for the attribute.
  abbrev pub indexed : Equalities B V → Option Text → B → Bool
  indexed eqs name b = elim (Dict.get (inner eqs name) b) [ none ↦ false | some _ ↦ true ]

  inner-set_ids :
      (eqs : Equalities B V) (n : Option Text) (b : B) (v : Option V) (ids : List Text)
      (n' : Option Text) (b' : B)
      → inner (inner (set_ids eqs n b v ids) n') b' ≡ (
          if n == n' && b == b'
          then Dict.put (inner (inner eqs n') b') v ids
          else inner (inner eqs n') b')
  inner-set_ids eqs n b v ids n' b' = elim (Bool-cases (n == n')) [
    | inr h ↦
        rw
          (
            inner-put eqs n n' (Dict.put (inner eqs n) b (Dict.put (inner (inner eqs n) b) v ids)),
            h,
          )
          refl
    | inl h ↦
        let m = Dict.put (inner (inner eqs n) b) v ids in
        let here : inner (set_ids eqs n b v ids) n' ≡ Dict.put (inner eqs n) b m =
          ground (arith, inner-put eqs n n' (Dict.put (inner eqs n) b m), h) in
        let step : inner (inner (set_ids eqs n b v ids) n') b'
            ≡ (if b == b' then m else inner (inner eqs n) b') =
          ap (λ x. inner x b') here ∙ inner-put (inner eqs n) b b' m in
        elim (Bool-cases (b == b')) [
          | inl h' ↦
              step
              ∙ rw (h, h')
                  (ap (λ x. Dict.put x v ids)
                    (ap (λ x. inner x b) (inner-eq eqs n n' h) ∙ inner-eq (inner eqs n') b b' h'))
          | inr h' ↦ step ∙ rw (h, h') (ap (λ x. inner x b') (inner-eq eqs n n' h))
        ]
  ]

  pub ids_at-set_ids :
      (eqs : Equalities B V) (n : Option Text) (b : B) (v : Option V) (ids : List Text)
      (n' : Option Text) (b' : B) (v' : Option V)
      → ids_at (set_ids eqs n b v ids) n' b' v'
        ≡ (if (n == n' && b == b') && v == v' then ids else ids_at eqs n' b' v')
  ids_at-set_ids eqs n b v ids n' b' v' =
      ground (arith, inner-set_ids eqs n b v ids n' b', get-put (inner (inner eqs n') b') v ids v')

  pub ids_at-miss :
      (eqs : Equalities B V) (n : Option Text) (b : B) (v : Option V) (ids : List Text)
      (n' : Option Text) (b' : B) (v' : Option V)
      → ((n == n' && b == b') && v == v') ≡ false
      → ids_at (set_ids eqs n b v ids) n' b' v' ≡ ids_at eqs n' b' v'
  ids_at-miss eqs n b v ids n' b' v' e = ids_at-set_ids eqs n b v ids n' b' v' ∙ rw e refl

  pub ids_at-hit :
      (eqs : Equalities B V) (n : Option Text) (b : B) (v : Option V) (ids : List Text)
      (n' : Option Text) (b' : B) (v' : Option V)
      → ((n == n' && b == b') && v == v') ≡ true
      → ids_at (set_ids eqs n b v ids) n' b' v' ≡ ids
  ids_at-hit eqs n b v ids n' b' v' e = ids_at-set_ids eqs n b v ids n' b' v' ∙ rw e refl

  -- The identifiers under the key that is hit.
  ids_at-same :
      (eqs : Equalities B V) (n : Option Text) (b : B) (v : Option V) (n' : Option Text) (b' : B)
      (v' : Option V)
      → ((n == n' && b == b') && v == v') ≡ true
      → ids_at eqs n b v ≡ ids_at eqs n' b' v'
  ids_at-same eqs n b v n' b' v' e =
      ap (λ x. ids_at eqs x b v) ((==_iff n n').0 (ground (arith, e)))
      ∙ ap (λ x. ids_at eqs n' x v) ((==_iff b b').0 (ground (arith, e)))
      ∙ ap (λ x. ids_at eqs n' b' x) ((==_iff v v').0 (ground (arith, e)))

  pub indexed-set_ids :
      (eqs : Equalities B V) (n : Option Text) (b : B) (v : Option V) (ids : List Text)
      (n' : Option Text) (b' : B)
      → indexed (set_ids eqs n b v ids) n' b' ≡ (n == n' && b == b') || indexed eqs n' b'
  indexed-set_ids eqs n b v ids n' b' = ground (
    arith,
    inner-put eqs n n' (Dict.put (inner eqs n) b (Dict.put (inner (inner eqs n) b) v ids)),
    get-put (inner eqs n) b (Dict.put (inner (inner eqs n) b) v ids) b',
    ==_iff n n',
    ==_iff b b',
  )

  -- The pairs hold the attribute with the value.
  abbrev pub has_pair : Dict B (Option V) → B → Option V → Bool
  has_pair [] b v = false
  has_pair ((b', v') ∷ pairs) b v = b' == b && v' == v || has_pair pairs b v

  abbrev pub names_pair : Dict B (Option V) → B → Bool
  names_pair [] b = false
  names_pair ((b', v') ∷ pairs) b = b' == b || names_pair pairs b

  -- An attribute that is put keeps its one value, when it had no other.
  pub has_pair-put :
      (pairs : Dict B (Option V)) (b : B) (v : Option V) (b' : B) (v' : Option V)
      → ((w : Option V) → has_pair pairs b w ≡ true → w ≡ v)
      → has_pair (Dict.put pairs b v) b' v' ≡ has_pair pairs b' v' || b == b' && v == v'
  unfolding Dict.put
  has_pair-put [] b v b' v' h = ground arith
  has_pair-put ((c, w) ∷ pairs) b v b' v' h =
      let head : (c == b) ≡ true → w ≡ v = λ q. h w (ground (arith, q, ==_refl w)) in
      let rest = has_pair-put pairs b v b' v' (λ x q. h x (ground (arith, q))) in
      elim (Bool-cases (c == b)) [
        | inl e ↦ rw (e, Dict.put) (ground (arith, head e, ==_iff c b, e))
        | inr e ↦ rw (e, Dict.put) (ground (arith, rest))
      ]

  discard_one-contains :
      (key : Key) (eqs : Equalities B V) (c : B) (w : Option V) (n : Option Text) (b : B)
      (v : Option V) (id : Text)
      → contains (ids_at (set_ids eqs key.0 c w (discard_id key.1 (ids_at eqs key.0 c w))) n b v) id
        ≡ contains (ids_at eqs n b v) id && not ((key.0 == n && key.1 == id) && (c == b && w == v))
  discard_one-contains key eqs c w n b v id = elim (Bool-cases ((key.0 == n && c == b) && w == v)) [
    | inr e ↦
        ap (λ x. contains x id)
          (ids_at-miss eqs key.0 c w (discard_id key.1 (ids_at eqs key.0 c w)) n b v e)
        ∙ ground (arith, e)
    | inl e ↦
        ap (λ x. contains x id)
          (ids_at-hit eqs key.0 c w (discard_id key.1 (ids_at eqs key.0 c w)) n b v e)
        ∙ contains-discard_id key.1 (ids_at eqs key.0 c w) id
        ∙ ap (λ x. contains x id && not (key.1 == id)) (ids_at-same eqs key.0 c w n b v e)
        ∙ ground (arith, e)
  ]

  pub discard_equal-contains :
      (key : Key) (eqs : Equalities B V) (pairs : Dict B (Option V)) (n : Option Text) (b : B)
      (v : Option V) (id : Text)
      → contains (ids_at (discard_equal key eqs pairs) n b v) id
        ≡ contains (ids_at eqs n b v) id && not (key == (n, id) && has_pair pairs b v)
  unfolding discard_equal same_key
  discard_equal-contains key eqs [] n b v id = ground arith
  discard_equal-contains key eqs ((c, w) ∷ pairs) n b v id =
      discard_equal-contains key (set_ids eqs key.0 c w (discard_id key.1 (ids_at eqs key.0 c w)))
        pairs n b v id
      ∙ ap (λ x. x && not (key == (n, id) && has_pair pairs b v))
          (discard_one-contains key eqs c w n b v id)
      ∙ merge (contains (ids_at eqs n b v) id) (key == (n, id)) (c == b && w == v)
          (has_pair pairs b v)
    where
      merge : (x k p q : Bool) → (x && not (k && p)) && not (k && q) ≡ x && not (k && (p || q))
      merge true true true q = refl
      merge true true false q = refl
      merge true false p q = refl
      merge false k p q = refl

  -- An identifier that is added to the index of a value.
  pub add_one-contains :
      (key : Key) (eqs : Equalities B V) (c : B) (w : Option V) (n : Option Text) (b : B)
      (v : Option V) (id : Text)
      → contains (ids_at (set_ids eqs key.0 c w (add_id key.1 (ids_at eqs key.0 c w))) n b v) id
        ≡ contains (ids_at eqs n b v) id || (key.0 == n && key.1 == id) && (c == b && w == v)
  add_one-contains key eqs c w n b v id = elim (Bool-cases ((key.0 == n && c == b) && w == v)) [
    | inr e ↦
        ap (λ x. contains x id)
          (ids_at-miss eqs key.0 c w (add_id key.1 (ids_at eqs key.0 c w)) n b v e)
        ∙ ground (arith, e)
    | inl e ↦
        ap (λ x. contains x id)
          (ids_at-hit eqs key.0 c w (add_id key.1 (ids_at eqs key.0 c w)) n b v e)
        ∙ contains-add_id key.1 (ids_at eqs key.0 c w) id
        ∙ ap (λ x. contains x id || key.1 == id) (ids_at-same eqs key.0 c w n b v e)
        ∙ ground (arith, e)
  ]
