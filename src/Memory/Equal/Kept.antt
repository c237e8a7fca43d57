-- ===== src/Memory/Equal/Kept.antt =====
-- The writes of `InMemoryStorage` keep the index of equal values.
use scim2_server.Base.Dict
use scim2_server.Base.Dict.{Dict, get-put, get-pop}
use scim2_server.Models.{Resource}
use scim2_server.Memory.{Key, key_eq, same_key, Attributes, Storage, inner}
use scim2_server.Memory.Store.{missing_eq, put_in, pop_in, index_equalities, remove, store}
use scim2_server.Memory.Found.{found, found-remove, found-placed, placed, inner-put}
use scim2_server.Memory.Equal.{indexed, names_pair}
use scim2_server.Memory.Owning.{Distinct}
use scim2_server.Memory.Valid.{Distinct-put}
use scim2_server.Memory.Equal.Described.{
  at_key, held, Describes, Describes-change, remove-Describes, placed-Describes,
  index_equalities-Describes,
}
use scim2_server.Memory.Equal.Shape.{
  index_equalities-indexed, contains-keys, discard_equal-indexed, names-has_pair,
}
use scim2_server.Base.{
  ◌≡◌, refl, sym, ap, ◌∙◌, subst, inl, inr, true, not, ◌&&◌, ◌||◌, Option, none, some, [], ◌∷◌, map,
  arith, Bool-cases, Option-cases, contains, ◌==◌, ==_iff, ==_refl, nat_eq, Text, text_eq,
  option_text_eq, Eq,
}

Distinct-pop :
    {K W : Type 0} ⦃e : Eq K⦄ (d : Dict K W) (k : K) → Distinct d → Distinct (Dict.pop d k)
unfolding Dict.pop
Distinct-pop [] k h = tt
Distinct-pop ((j, w) ∷ d) k h = elim (Bool-cases (j == k)) [
  | inl e ↦ rw (e, Dict.pop) (Distinct-pop d k h.1)
  | inr e ↦ rw (e, Dict.pop) (ground (arith, get-pop d k j, h.0), Distinct-pop d k h.1)
]

-- Every resource of a type stands once in its dict.
abbrev pub Apart : Dict (Option Text) (Dict Text Resource) → Type 0
Apart d = (n : Option Text) → Distinct (inner d n)

pub put_in-Apart :
    (d : Dict (Option Text) (Dict Text Resource)) (n : Option Text) (id : Text) (r : Resource)
    → Apart d
    → Apart (put_in d n id r)
put_in-Apart d n id r h m = elim (Bool-cases (n == m)) [
  | inl e ↦
      subst Distinct (sym (inner-put d n m (Dict.put (inner d n) id r) ∙ rw e refl))
        (Distinct-put (inner d n) id r (h n))
  | inr e ↦ subst Distinct (sym (inner-put d n m (Dict.put (inner d n) id r) ∙ rw e refl)) (h m)
]

inner-found :
    (d : Dict (Option Text) (Dict Text Resource)) (n : Option Text) (w : Dict Text Resource)
    → Dict.get d n ≡ some w
    → inner d n ≡ w
inner-found d n w e = ground (arith, e)

pub pop_in-Apart :
    (d : Dict (Option Text) (Dict Text Resource)) (n : Option Text) (id : Text)
    → Apart d
    → Apart (pop_in d n id)
pop_in-Apart d n id h m = elim (Option-cases (Dict.get d n)) [
  | inl e ↦ rw (e, pop_in) (h m)
  | inr (w, e) ↦
      rw (e, pop_in)
        (elim (Bool-cases (n == m)) [
          | inl same ↦ subst Distinct (sym (inner-put d n m (Dict.pop w id) ∙ rw same refl)) (
              subst (λ x. Distinct (Dict.pop x id)) (inner-found d n w e)
                (Distinct-pop (inner d n) id (h n)))
          | inr other ↦ subst Distinct (sym (inner-put d n m (Dict.pop w id) ∙ rw other refl)) (h m)
        ])
]

module _ {B V R : Type 0} ⦃eb : Eq B⦄ ⦃ev : Eq V⦄ (a : Attributes B V R) where
  -- The index of each type and attribute that has one describes all the resources of the type.
  abbrev pub IsIndexed : Storage B V → Type 0
  IsIndexed s = Describes a (λ n b id. indexed s.equalities n b) s

  remove-indexed :
      (key : Key) (s : Storage B V) (n : Option Text) (b : B)
      → IsIndexed s
      → indexed (remove key s).equalities n b ≡ indexed s.equalities n b
  unfolding remove
  remove-indexed key s n b d =
      discard_equal-indexed a key s.equalities (inner s.equal_values key) n b
      ∙ elim (Bool-cases (key.0 == n && names_pair (inner s.equal_values key) b)) [
        | inr e ↦ ground (arith, e)
        | inl e ↦
            let (v, p) = names-has_pair a (inner s.equal_values key) b (ground (arith, e)) in
            let same : indexed s.equalities key.0 b ≡ indexed s.equalities n b =
              ap (λ x. indexed s.equalities x b) ((==_iff key.0 n).0 (ground (arith, e))) in
            ground (arith, e, d.paired key.0 b v key.1, p, same)
      ]

  removed-none :
      (key : Key) (s : Storage B V) (n : Option Text) (id : Text)
      → at_key key n id ≡ true
      → found (remove key s) (n, id) ≡ none
  unfolding same_key
  removed-none key s n id e = found-remove key (n, id) s ∙ ground (arith, e)

  pub remove-IsIndexed : (key : Key) (s : Storage B V) → IsIndexed s → IsIndexed (remove key s)
  remove-IsIndexed key s d =
      Describes-change a _ _ (remove key s)
        (λ n b v id. elim (Bool-cases (at_key key n id)) [
          | inl e ↦ ground (arith, e, removed-none key s n id e)
          | inr e ↦ ground (arith, e, remove-indexed key s n b d)
        ])
        (remove-Describes a _ key s d)

  store-cover :
      (key : Key) (s : Storage B V) (n : Option Text) (b : B) (id : Text)
      → IsIndexed s
      → (indexed s.equalities n b && not (at_key key n id)
          || at_key key n id && contains (map (λ e. e.0) (inner (remove key s).equalities key.0)) b)
        ≡ indexed (remove key s).equalities n b
          || key.0 == n && contains (map (λ e. e.0) (inner (remove key s).equalities key.0)) b
  store-cover key s n b id d =
      let same : (key.0 == n) ≡ true → indexed s.equalities key.0 b ≡ indexed s.equalities n b =
        λ e. ap (λ x. indexed s.equalities x b) ((==_iff key.0 n).0 e) in
      ground (
        arith,
        contains-keys a (inner (remove key s).equalities key.0) b,
        remove-indexed key s n b d,
        remove-indexed key s key.0 b d,
        same,
      )

  pub store-IsIndexed :
      (key : Key) (r : Resource) (vs : Dict Text V) (s : Storage B V)
      → IsIndexed s
      → IsIndexed (store a key r vs s)
  unfolding store
  store-IsIndexed key r vs s d =
      let bs = map (λ e. e.0) (inner (remove key s).equalities key.0) in
      Describes-change a _ _ (index_equalities a key r bs (placed a key r vs s))
        (λ n b v id.
          ap
            (λ x.
              x && held a (found (index_equalities a key r bs (placed a key r vs s)) (n, id)) b v)
            (store-cover key s n b id d
              ∙ sym (index_equalities-indexed a key r bs (placed a key r vs s) n b)))
        (index_equalities-Describes a _ key r bs (placed a key r vs s)
          (found-placed a key key r vs s ∙ ground (arith, ==_refl key))
          (placed-Describes a _ key r vs s d))
