-- ===== src/Memory/Equal/Described.antt =====
-- The index of equal values describes the stored resources, through every operation.
use scim2_server.Base.Dict
use scim2_server.Base.Dict.{Dict, get-put, get-pop}
use scim2_server.Models.{Resource}
use scim2_server.Memory.{Key, key_eq, same_key, Attributes, Storage, inner}
use scim2_server.Memory.Store.{
  missing_eq, ids_at, comparable_value, index_equality, index_equalities, remove,
}
use scim2_server.Memory.Found.{found, found-remove, found-placed, placed, inner-put}
use scim2_server.Memory.Equal.{has_pair, has_pair-put, discard_equal-contains, add_one-contains}
use scim2_server.Base.{
  ◌≡◌, sym, ap, ◌∙◌, inl, inr, Bool, true, false, not, ◌&&◌, ◌||◌, Option, none, some, List, [],
  ◌∷◌, arith, if◌then◌else◌, Bool-cases, contains, ◌==◌, ==_iff, nat_eq, Text, text_eq,
  option_text_eq, Eq,
}

inner-pop :
    {K L W : Type 0} ⦃e : Eq K⦄ (d : Dict K (Dict L W)) (k j : K)
    → inner (Dict.pop d k) j ≡ (if k == j then [] else inner d j)
inner-pop d k j = ground (arith, get-pop d k j)

-- The identifier is the one of the key.
abbrev pub at_key : Key → Option Text → Text → Bool
at_key key n id = key.0 == n && key.1 == id

pub at_key-eq : (key : Key) (n : Option Text) (id : Text) → at_key key n id ≡ true → key ≡ (n, id)
at_key-eq key n id e = ground (arith, e, ==_iff key.0 n, ==_iff key.1 id)

module _ {B V R : Type 0} ⦃eb : Eq B⦄ ⦃ev : Eq V⦄ (a : Attributes B V R) where
  -- The resource, when there is one, holds the value.
  abbrev pub held : Option Resource → B → Option V → Bool
  held none b v = false
  held (some r) b v = comparable_value a r b == v

  -- The index and the values kept for it hold exactly what the stored resources do, as far as `cover` goes.
  pub record Describes (cover : Option Text → B → Text → Bool) (s : Storage B V) : Type 0 where
    pub listed :
        (n : Option Text) (b : B) (v : Option V) (id : Text)
        → contains (ids_at s.equalities n b v) id ≡ cover n b id && held (found s (n, id)) b v
    pub paired :
        (n : Option Text) (b : B) (v : Option V) (id : Text)
        → has_pair (inner s.equal_values (n, id)) b v ≡ cover n b id && held (found s (n, id)) b v

  pub Describes-change :
      (cover cover' : Option Text → B → Text → Bool) (s : Storage B V)
      → ((n : Option Text) (b : B) (v : Option V) (id : Text)
          → cover n b id && held (found s (n, id)) b v
            ≡ cover' n b id && held (found s (n, id)) b v)
      → Describes cover s
      → Describes cover' s
  Describes-change cover cover' s e d = record {
    listed = λ n b v id. d.listed n b v id ∙ e n b v id;
    paired = λ n b v id. d.paired n b v id ∙ e n b v id;
  }

  held-at :
      (key : Key) (r : Resource) (s : Storage B V) (n : Option Text) (id : Text) (b : B)
      (v : Option V)
      → found s key ≡ some r
      → at_key key n id ≡ true
      → held (found s (n, id)) b v ≡ comparable_value a r b == v
  held-at key r s n id b v there e =
      ap (λ k. held (found s k) b v) (sym (at_key-eq key n id e)) ∙ ap (λ o. held o b v) there

  index_equality-listed :
      (cover : Option Text → B → Text → Bool) (key : Key) (r : Resource) (s : Storage B V) (b : B)
      (n : Option Text) (b' : B) (v : Option V) (id : Text)
      → found s key ≡ some r
      → Describes cover s
      → contains (ids_at (index_equality a key r s b).equalities n b' v) id
        ≡ (cover n b' id || at_key key n id && b == b') && held (found s (n, id)) b' v
  unfolding index_equality
  index_equality-listed cover key r s b n b' v id there d =
      let w = comparable_value a r b in
      let same : (b == b') ≡ true → w ≡ comparable_value a r b' =
        λ e. ap (comparable_value a r) ((==_iff b b').0 e) in
      add_one-contains key s.equalities b w n b' v id
      ∙ ground (arith, d.listed n b' v id, held-at key r s n id b' v there, same)

  index_equality-paired :
      (cover : Option Text → B → Text → Bool) (key : Key) (r : Resource) (s : Storage B V) (b : B)
      (n : Option Text) (b' : B) (v : Option V) (id : Text)
      → found s key ≡ some r
      → Describes cover s
      → has_pair (inner (index_equality a key r s b).equal_values (n, id)) b' v
        ≡ (cover n b' id || at_key key n id && b == b') && held (found s (n, id)) b' v
  unfolding index_equality same_key
  index_equality-paired cover key r s b n b' v id there d =
      let w = comparable_value a r b in
      let same : (b == b') ≡ true → w ≡ comparable_value a r b' =
        λ e. ap (comparable_value a r) ((==_iff b b').0 e) in
      let only : (x : Option V) → has_pair (inner s.equal_values key) b x ≡ true → x ≡ w =
        λ x e. ground (arith, e, d.paired key.0 b x key.1, there, ==_iff w x) in
      let put = has_pair-put (inner s.equal_values key) b w b' v only in
      elim (Bool-cases (at_key key n id)) [
        | inl e ↦
            ap (λ x. has_pair x b' v) {y = Dict.put (inner s.equal_values key) b w}
              (inner-put s.equal_values key (n, id) (Dict.put (inner s.equal_values key) b w)
                ∙ ground (arith, e))
            ∙ put
            ∙ ap (λ k. has_pair (inner s.equal_values k) b' v || b == b' && w == v)
                (at_key-eq key n id e)
            ∙ ground (arith, e, d.paired n b' v id, held-at key r s n id b' v there e, same)
        | inr e ↦
            ap (λ x. has_pair x b' v) {y = inner s.equal_values (n, id)}
              (inner-put s.equal_values key (n, id) (Dict.put (inner s.equal_values key) b w)
                ∙ ground (arith, e))
            ∙ ground (arith, e, d.paired n b' v id)
      ]

  pub index_equality-Describes :
      (cover : Option Text → B → Text → Bool) (key : Key) (r : Resource) (s : Storage B V) (b : B)
      → found s key ≡ some r
      → Describes cover s
      → Describes
          (λ n b' id. cover n b' id || at_key key n id && b == b')
          (index_equality a key r s b)
  unfolding index_equality
  index_equality-Describes cover key r s b there d = record {
    listed = λ n b' v id. index_equality-listed cover key r s b n b' v id there d;
    paired = λ n b' v id. index_equality-paired cover key r s b n b' v id there d;
  }

  remove-listed :
      (cover : Option Text → B → Text → Bool) (key : Key) (s : Storage B V) (n : Option Text)
      (b : B) (v : Option V) (id : Text)
      → Describes cover s
      → contains (ids_at (remove key s).equalities n b v) id
        ≡ (cover n b id && not (at_key key n id)) && held (found (remove key s) (n, id)) b v
  unfolding remove same_key
  remove-listed cover key s n b v id d =
      discard_equal-contains key s.equalities (inner s.equal_values key) n b v id
      ∙ elim (Bool-cases (at_key key n id)) [
        | inl e ↦
            ap
              (λ k.
                contains (ids_at s.equalities n b v) id
                && not (at_key key n id && has_pair (inner s.equal_values k) b v))
              (at_key-eq key n id e)
            ∙ ground (arith, e, d.listed n b v id, d.paired n b v id)
        | inr e ↦ ground (arith, e, d.listed n b v id, found-remove key (n, id) s)
      ]

  remove-paired :
      (cover : Option Text → B → Text → Bool) (key : Key) (s : Storage B V) (n : Option Text)
      (b : B) (v : Option V) (id : Text)
      → Describes cover s
      → has_pair (inner (remove key s).equal_values (n, id)) b v
        ≡ (cover n b id && not (at_key key n id)) && held (found (remove key s) (n, id)) b v
  unfolding remove same_key
  remove-paired cover key s n b v id d = elim (Bool-cases (at_key key n id)) [
    | inl e ↦
        ap (λ x. has_pair x b v) {y = []} (inner-pop s.equal_values key (n, id) ∙ ground (arith, e))
        ∙ ground (arith, e)
    | inr e ↦
        ap (λ x. has_pair x b v) {y = inner s.equal_values (n, id)}
          (inner-pop s.equal_values key (n, id) ∙ ground (arith, e))
        ∙ ground (arith, e, d.paired n b v id, found-remove key (n, id) s)
  ]

  -- What a removal leaves is described, but for the key.
  pub remove-Describes :
      (cover : Option Text → B → Text → Bool) (key : Key) (s : Storage B V)
      → Describes cover s
      → Describes (λ n b id. cover n b id && not (at_key key n id)) (remove key s)
  remove-Describes cover key s d = record {
    listed = λ n b v id. remove-listed cover key s n b v id d;
    paired = λ n b v id. remove-paired cover key s n b v id d;
  }

  placed-held :
      (cover : Option Text → B → Text → Bool) (key : Key) (r : Resource) (vs : Dict Text V)
      (s : Storage B V) (n : Option Text) (b : B) (v : Option V) (id : Text)
      → (cover n b id && not (at_key key n id)) && held (found (remove key s) (n, id)) b v
        ≡ (cover n b id && not (at_key key n id)) && held (found (placed a key r vs s) (n, id)) b v
  unfolding same_key
  placed-held cover key r vs s n b v id = elim (Bool-cases (at_key key n id)) [
    | inl e ↦ ground (arith, e)
    | inr e ↦
        let removed : found (remove key s) (n, id) ≡ found s (n, id) =
          found-remove key (n, id) s ∙ ground (arith, e) in
        let kept : found (placed a key r vs s) (n, id) ≡ found s (n, id) =
          found-placed a key (n, id) r vs s ∙ ground (arith, e) in
        ap (λ x. (cover n b id && not (at_key key n id)) && held x b v) (removed ∙ sym kept)
  ]

  pub placed-Describes :
      (cover : Option Text → B → Text → Bool) (key : Key) (r : Resource) (vs : Dict Text V)
      (s : Storage B V)
      → Describes cover s
      → Describes (λ n b id. cover n b id && not (at_key key n id)) (placed a key r vs s)
  placed-Describes cover key r vs s d = record {
    listed =
        λ n b v id. remove-listed cover key s n b v id d ∙ placed-held cover key r vs s n b v id;
    paired =
        λ n b v id. remove-paired cover key s n b v id d ∙ placed-held cover key r vs s n b v id;
  }

  pub index_equalities-Describes :
      (cover : Option Text → B → Text → Bool) (key : Key) (r : Resource) (bs : List B)
      (s : Storage B V)
      → found s key ≡ some r
      → Describes cover s
      → Describes
          (λ n b id. cover n b id || at_key key n id && contains bs b)
          (index_equalities a key r bs s)
  unfolding index_equality
  index_equalities-Describes cover key r [] s there d =
      Describes-change cover _ s (λ n b v id. ground arith) d
  index_equalities-Describes cover key r (c ∷ bs) s there d =
      Describes-change _ _ (index_equalities a key r (c ∷ bs) s)
        (λ n b v id. merge (cover n b id) (at_key key n id) (c == b) (contains bs b) _)
        (index_equalities-Describes (λ n b id. cover n b id || at_key key n id && c == b) key r bs
          (index_equality a key r s c) there (index_equality-Describes cover key r s c there d))
    where
      merge : (x k p q h : Bool) → ((x || k && p) || k && q) && h ≡ (x || k && (p || q)) && h
      merge x k p q h = ground arith
