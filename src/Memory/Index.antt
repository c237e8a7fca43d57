-- ===== src/Memory/Index.antt =====
-- The index of the unique values: which key owns a value, and which values a key holds.
use scim2_server.Base.Dict
use scim2_server.Base.Dict.{Dict, get-put, get-pop}
use scim2_server.Memory.{
  Key, key_eq, Owners, inner, get_in, forget_values, keep_values, check_uniqueness,
}
use scim2_server.Base.{
  ◌≡◌, inl, inr, true, none, some, arith, if◌then◌else◌, Option-cases, ◌==◌, ==_iff, ==_refl,
  nat_eq, Text, text_eq, option_text_eq, Eq, ok,
}
use scim2_server.Memory.Owning.{
  Distinct, Taken, item, item-get, get_in-disown, get_in-own, check_uniqueness-item,
}

module _ {V : Type 0} ⦃ev : Eq V⦄ where
  -- The two dicts describe each other, and each dict of values holds an attribute once.
  pub record IsIndex (o : Owners V) : Type 0 where
    pub owned :
        (u : Text) (w : V) (k : Key)
        → get_in o.owners u w ≡ some k
        → get_in o.unique_values k u ≡ some w
    pub owning :
        (u : Text) (w : V) (k : Key)
        → get_in o.unique_values k u ≡ some w
        → get_in o.owners u w ≡ some k
    pub distinct : (k : Key) (vs : Dict Text V) → Dict.get o.unique_values k ≡ some vs → Distinct vs

  -- Two resources never hold the same value of a unique attribute.
  pub IsIndex-unique :
      (o : Owners V)
      → IsIndex o
      → (u : Text) (w : V) (k k' : Key) → get_in o.unique_values k u ≡ some w
      → get_in o.unique_values k' u ≡ some w
      → k ≡ k'
  IsIndex-unique o h u w k k' p q = cc (h.owning u w k p, h.owning u w k' q)

  inner-Distinct : (o : Owners V) → IsIndex o → (k : Key) → Distinct (inner o.unique_values k)
  inner-Distinct o h k = elim (Option-cases (Dict.get o.unique_values k)) [
    | inl e ↦ rw (e, Distinct) tt
    | inr (vs, e) ↦ rw (e, inner) (h.distinct k vs e)
  ]

  -- What `_remove` leaves: the values of the key are free, and the others keep their owners.
  pub forget_values-owner :
      (key : Key) (o : Owners V)
      → IsIndex o
      → (u : Text) (w : V)
      → get_in (forget_values key o).owners u w
        ≡ (if item (inner o.unique_values key) u w then none else get_in o.owners u w)
  unfolding forget_values
  forget_values-owner key o h u w = get_in-disown o.owners (inner o.unique_values key) u w

  pub forget_values-values :
      (key : Key) (o : Owners V) (k : Key) (u : Text)
      → get_in (forget_values key o).unique_values k u
        ≡ (if key == k then none else get_in o.unique_values k u)
  unfolding forget_values Dict.get
  forget_values-values key o k u = ground (arith, get-pop o.unique_values key k)

  pub forget_values-IsIndex : (key : Key) (o : Owners V) → IsIndex o → IsIndex (forget_values key o)
  forget_values-IsIndex key o h = record {
    owned = λ u w k p. ground (
      arith,
      p,
      forget_values-owner key o h u w,
      forget_values-values key o k u,
      item-get (inner o.unique_values key) u w (inner-Distinct o h key),
      h.owned u w k,
      ==_iff key k,
    );
    owning = λ u w k p. ground (
      arith,
      p,
      forget_values-owner key o h u w,
      forget_values-values key o k u,
      item-get (inner o.unique_values key) u w (inner-Distinct o h key),
      h.owning u w k,
      h.owning u w key,
      ==_refl key,
    );
    distinct = λ k vs p.
        unfold forget_values in ground (arith, p, get-pop o.unique_values key k, h.distinct k vs);
  }

  keep_values-owner :
      (key : Key) (vs : Dict Text V) (o : Owners V) (u : Text) (w : V)
      → get_in (keep_values key vs o).owners u w
        ≡ (if item vs u w then some key else get_in o.owners u w)
  unfolding keep_values
  keep_values-owner key vs o u w = get_in-own key o.owners vs u w

  pub keep_values-values :
      (key : Key) (vs : Dict Text V) (o : Owners V) (k : Key) (u : Text)
      → get_in (keep_values key vs o).unique_values k u
        ≡ (if key == k then Dict.get vs u else get_in o.unique_values k u)
  unfolding keep_values
  keep_values-values key vs o k u = ground (arith, get-put o.unique_values key vs k)

  -- New values for a key that holds none, and that nobody owns.
  keep_values-IsIndex :
      (key : Key) (vs : Dict Text V) (o : Owners V)
      → Distinct vs
      → ((u : Text) → get_in o.unique_values key u ≡ none)
      → ((u : Text) (w : V) → item vs u w ≡ true → get_in o.owners u w ≡ none)
      → IsIndex o
      → IsIndex (keep_values key vs o)
  keep_values-IsIndex key vs o d empty free h = record {
    owned = λ u w k p. ground (
      arith,
      p,
      keep_values-owner key vs o u w,
      keep_values-values key vs o k u,
      item-get vs u w d,
      h.owned u w k,
      empty u,
      ==_iff key k,
      ==_refl key,
    );
    owning = λ u w k p. ground (
      arith,
      p,
      keep_values-owner key vs o u w,
      keep_values-values key vs o k u,
      item-get vs u w d,
      h.owning u w k,
      free u w,
      ==_iff key k,
    );
    distinct = λ k ws p.
        unfold keep_values in
        ground (arith, p, d, get-put o.unique_values key vs k, h.distinct k ws);
  }

  -- The index part of `_store`: once `_check_uniqueness` has passed, the dicts still describe each
  -- other after the values of the key are replaced.
  pub store_values-IsIndex :
      (key : Key) (vs : Dict Text V) (o : Owners V)
      → Distinct vs
      → check_uniqueness key o.owners vs ≡ ok tt
      → IsIndex o
      → IsIndex (keep_values key vs (forget_values key o))
  store_values-IsIndex key vs o d passed h =
      keep_values-IsIndex key vs (forget_values key o) d
        (λ u. ground (arith, forget_values-values key o key u, ==_refl key))
        (λ u w m. ground (
          arith,
          m,
          forget_values-owner key o h u w,
          check_uniqueness-item key o.owners vs u w passed,
          item-get (inner o.unique_values key) u w (inner-Distinct o h key),
          h.owned u w key,
          Taken key (get_in o.owners u w),
        ))
        (forget_values-IsIndex key o h)
