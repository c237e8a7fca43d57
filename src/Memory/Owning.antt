-- ===== src/Memory/Owning.antt =====
-- Which key owns a value: what `_store`, `_remove` and `_check_uniqueness` do to the dict of owners.
use scim2_server.Base.Dict
use scim2_server.Base.Dict.{Dict, get-put, get-pop}
use scim2_server.Memory.{Key, key_eq, inner, get_in, disown, own, taken_by_other, check_uniqueness}
use scim2_server.Base.{
  ◌≡◌, refl, ap, ◌↔◌, ◌⊎◌, inl, inr, Bool, true, false, ◌&&◌, ◌||◌, Option, none, some, [], ◌∷◌,
  arith, if◌then◌else◌, Bool-cases, Option-cases, ◌==◌, ==_iff, ==_refl, nat_eq, Text, text_eq,
  option_text_eq, Eq, ok, err, uniqueness, Exception,
}

-- No two items of a dict have the same key.
abbrev pub Distinct : {K W : Type 0} ⦃e : Eq K⦄ → Dict K W → Type 0
Distinct [] = Unit
Distinct ((k, w) ∷ d) = (Dict.get d k ≡ none) × Distinct d

pub Taken :
    (key : Key) (owner : Option Key)
    → taken_by_other key owner ≡ false
    → (owner ≡ none) ⊎ (owner ≡ some key)
Taken key none h = inl refl
Taken key (some k) h = inr (ap some ((==_iff k key).0 (ground arith)))

module _ {V : Type 0} ⦃ev : Eq V⦄ where
  abbrev pub item : Dict Text V → Text → V → Bool
  item [] u w = false
  item ((urn, v) ∷ vs) u w = (urn == u && v == w) || item vs u w

  pub item-get :
      (vs : Dict Text V) (u : Text) (w : V)
      → Distinct vs
      → (item vs u w ≡ true) ↔ (Dict.get vs u ≡ some w)
  unfolding Dict.get
  item-get [] u w h = ground arith
  item-get ((urn, v) ∷ vs) u w h =
      ground (arith, ==_iff urn u, ==_iff v w, item-get vs u w h.1, h.0)

  pub inner-put :
      (d : Dict Text (Dict V Key)) (urn u : Text) (m : Dict V Key)
      → inner (Dict.put d urn m) u ≡ (if urn == u then m else inner d u)
  inner-put d urn u m = ground (arith, get-put d urn m u)

  pub inner-eq :
      (d : Dict Text (Dict V Key)) (urn u : Text) → (urn == u) ≡ true → inner d urn ≡ inner d u
  inner-eq d urn u e = ap (inner d) ((==_iff urn u).0 e)

  pub get_in-put :
      (d : Dict Text (Dict V Key)) (urn u : Text) (v w : V) (k : Key)
      → get_in (Dict.put d urn (Dict.put (inner d urn) v k)) u w
        ≡ (if urn == u && v == w then some k else get_in d u w)
  get_in-put d urn u v w k = elim (Bool-cases (urn == u)) [
    | inl e ↦ rw (inner-put d urn u (Dict.put (inner d urn) v k), e, inner-eq d urn u e, get-put)
    | inr e ↦ rw (inner-put d urn u (Dict.put (inner d urn) v k), e)
  ]

  pub get_in-del :
      (d : Dict Text (Dict V Key)) (urn u : Text) (v w : V)
      → get_in (Dict.put d urn (Dict.pop (inner d urn) v)) u w
        ≡ (if urn == u && v == w then none else get_in d u w)
  get_in-del d urn u v w = elim (Bool-cases (urn == u)) [
    | inl e ↦ rw (inner-put d urn u (Dict.pop (inner d urn) v), e, inner-eq d urn u e, get-pop)
    | inr e ↦ rw (inner-put d urn u (Dict.pop (inner d urn) v), e)
  ]

  pub get_in-disown :
      (d : Dict Text (Dict V Key)) (vs : Dict Text V) (u : Text) (w : V)
      → get_in (disown d vs) u w ≡ (if item vs u w then none else get_in d u w)
  unfolding disown
  get_in-disown d [] u w = refl
  get_in-disown d ((urn, v) ∷ vs) u w = ground (
    arith,
    get_in-disown (Dict.put d urn (Dict.pop (inner d urn) v)) vs u w,
    get_in-del d urn u v w,
  )

  pub get_in-own :
      (key : Key) (d : Dict Text (Dict V Key)) (vs : Dict Text V) (u : Text) (w : V)
      → get_in (own key d vs) u w ≡ (if item vs u w then some key else get_in d u w)
  unfolding own
  get_in-own key d [] u w = refl
  get_in-own key d ((urn, v) ∷ vs) u w = ground (
    arith,
    get_in-own key (Dict.put d urn (Dict.put (inner d urn) v key)) vs u w,
    get_in-put d urn u v w key,
  )

  pub check_uniqueness-item :
      (key : Key) (d : Dict Text (Dict V Key)) (vs : Dict Text V) (u : Text) (w : V)
      → check_uniqueness key d vs ≡ ok tt
      → item vs u w ≡ true
      → taken_by_other key (get_in d u w) ≡ false
  unfolding check_uniqueness
  check_uniqueness-item key d [] u w h m = cc
  check_uniqueness-item key d ((urn, v) ∷ vs) u w h m =
      ground (arith, check_uniqueness-item key d vs u w, ==_iff urn u, ==_iff v w)

  -- A refusal names a value that another key owns.
  abbrev pub Refused : Key → Dict Text (Dict V Key) → Dict Text V → Exception → Type 0
  Refused key d vs e =
      (u : Text) × (w : V) × (k : Key) × (e ≡ uniqueness)
      × (item vs u w ≡ true)
      × (get_in d u w ≡ some k)
      × ((k == key) ≡ false)

  pub Refused-later :
      (key : Key) (d : Dict Text (Dict V Key)) (urn : Text) (v : V) (vs : Dict Text V)
      (e : Exception)
      → Refused key d vs e
      → Refused key d ((urn, v) ∷ vs) e
  Refused-later key d urn v vs e (u, w, k, same, m, o, n) = (u, w, k, same, ground (arith, m), o, n)

  pub check_uniqueness-err :
      (key : Key) (d : Dict Text (Dict V Key)) (vs : Dict Text V) (e : Exception)
      → check_uniqueness key d vs ≡ err e
      → Refused key d vs e
  unfolding check_uniqueness
  check_uniqueness-err key d [] e h = cc
  check_uniqueness-err key d ((urn, v) ∷ vs) e h = elim (Option-cases (get_in d urn v)) [
    | inl free ↦
        Refused-later key d urn v vs e (check_uniqueness-err key d vs e (ground (arith, h, free)))
    | inr (k, owned) ↦ elim (Bool-cases (k == key)) [
      | inl same ↦
          Refused-later key d urn v vs e
            (check_uniqueness-err key d vs e (ground (arith, h, owned, same)))
      | inr other ↦ (
        urn,
        v,
        k,
        ground (arith, h, owned, other),
        ground (arith, ==_refl urn, ==_refl v),
        owned,
        other,
      )
    ]
  ]
