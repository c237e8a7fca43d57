-- ===== src/Memory/Equal/Shape.antt =====
-- Which attributes have an index of equal values, and which values are kept for a resource.
use scim2_server.Base.Dict
use scim2_server.Base.Dict.{Dict, get-put, get-pop}
use scim2_server.Models.{Resource}
use scim2_server.Memory.{Key, key_eq, Attributes, Storage}
use scim2_server.Memory.Store.{
  Equalities, missing_eq, discard_id, add_id, ids_at, set_ids, discard_equal, comparable_value,
  index_equality, index_equalities,
}
use scim2_server.Memory.Equal.{indexed, has_pair, names_pair, indexed-set_ids}
use scim2_server.Base.{
  ◌≡◌, refl, ap, ◌∙◌, inl, inr, Bool, true, false, ◌&&◌, ◌||◌, Option, none, some, List, [], ◌∷◌,
  map, arith, Bool-cases, contains, ◌==◌, ==_refl, nat_eq, Text, text_eq, option_text_eq, Eq,
}

module _ {B V R : Type 0} ⦃eb : Eq B⦄ ⦃ev : Eq V⦄ (a : Attributes B V R) where
  -- Which attributes have an index.
  pub index_equalities-indexed :
      (key : Key) (r : Resource) (bs : List B) (s : Storage B V) (n : Option Text) (b : B)
      → indexed (index_equalities a key r bs s).equalities n b
        ≡ indexed s.equalities n b || key.0 == n && contains bs b
  unfolding index_equality
  index_equalities-indexed key r [] s n b = ground arith
  index_equalities-indexed key r (c ∷ bs) s n b =
      let w = comparable_value a r c in
      index_equalities-indexed key r bs (index_equality a key r s c) n b
      ∙ ap (λ x. x || key.0 == n && contains bs b)
          (indexed-set_ids s.equalities key.0 c w (add_id key.1 (ids_at s.equalities key.0 c w)) n
            b)
      ∙ ground arith

  pub contains-keys :
      (d : Dict B (Dict (Option V) (List Text))) (b : B)
      → contains (map (λ e. e.0) d) b
        ≡ elim (Dict.get d b) as (λ x. Bool) [ none ↦ false | some _ ↦ true ]
  unfolding Dict.get
  contains-keys [] b = refl
  contains-keys ((c, m) ∷ d) b = ground (arith, contains-keys d b)

  pub discard_equal-indexed :
      (key : Key) (eqs : Equalities B V) (pairs : Dict B (Option V)) (n : Option Text) (b : B)
      → indexed (discard_equal key eqs pairs) n b
        ≡ indexed eqs n b || key.0 == n && names_pair pairs b
  unfolding discard_equal
  discard_equal-indexed key eqs [] n b = ground arith
  discard_equal-indexed key eqs ((c, w) ∷ pairs) n b =
      discard_equal-indexed key (set_ids eqs key.0 c w (discard_id key.1 (ids_at eqs key.0 c w)))
        pairs n b
      ∙ ap (λ x. x || key.0 == n && names_pair pairs b)
          (indexed-set_ids eqs key.0 c w (discard_id key.1 (ids_at eqs key.0 c w)) n b)
      ∙ ground arith

  pub names-has_pair :
      (pairs : Dict B (Option V)) (b : B)
      → names_pair pairs b ≡ true
      → (v : Option V) × (has_pair pairs b v ≡ true)
  names-has_pair [] b e = cc
  names-has_pair ((c, w) ∷ pairs) b e = elim (Bool-cases (c == b)) [
    | inl here ↦ (w, ground (arith, here, ==_refl w))
    | inr other ↦
        let (v, p) = names-has_pair pairs b (ground (arith, e, other)) in (v, ground (arith, p))
  ]
