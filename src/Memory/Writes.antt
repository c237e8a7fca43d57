-- ===== src/Memory/Writes.antt =====
-- What the writes of `InMemoryStorage` do to the resources that it holds, on success and on failure.
use scim2_server.Base.Dict
use scim2_server.Base.Dict.{Dict}
use scim2_server.Models.{Resource, Meta, ResourceType}
use scim2_server.Memory.{Key, key_eq, Attributes, Storage, get_in, check_uniqueness}
use scim2_server.Memory.Store.{
  values_of, store_checked, key_of, stored, check_version, new_resource, create, write_update,
  update, delete, tick, written_meta,
}
use scim2_server.Memory.Found.{found, found-store}
use scim2_server.Memory.Valid.{IsValid, values_of-Distinct}
use scim2_server.Memory.Owning.{item-get, check_uniqueness-item, check_uniqueness-err}
use scim2_server.Base.{
  ℕ, ◌≡◌, refl, sym, ◌∙◌, ◌⊎◌, inl, inr, Option, none, some, arith, if◌then◌else◌, Option-cases,
  ◌==◌, ==_iff, nat_eq, Text, text_eq, option_text_eq, Eq, ok, err, uniqueness, ◌>>◌, Outcome-cases,
  Exception, Outcome, ◌≢◌,
}

module _ {B V R : Type 0} ⦃eb : Eq B⦄ ⦃ev : Eq V⦄ (a : Attributes B V R) where
  -- The storage `t` holds what `s` does, but `r` under `key`.
  abbrev pub Holds : Key → Resource → Storage B V → Storage B V → Type 0
  Holds key r s t = (k : Key) → found t k ≡ (if key == k then some r else found s k)

  -- Another stored resource has a unique value of `r`.
  abbrev pub Conflict : Key → Resource → Storage B V → Type 0
  Conflict key r s =
      (u : Text) × (w : V) × (k : Key) × (r' : Resource) × (k ≢ key)
      × (found s k ≡ some r')
      × (Dict.get (values_of a r) u ≡ some w)
      × (Dict.get (values_of a r') u ≡ some w)

  abbrev described_by : Option Resource → Text → Option V
  described_by o u = elim o [ none ↦ none | some r ↦ Dict.get (values_of a r) u ]

  holder :
      (o : Option Resource) (u : Text) (w : V)
      → described_by o u ≡ some w
      → (r' : Resource) × (o ≡ some r') × (Dict.get (values_of a r') u ≡ some w)
  holder none u w h = cc
  holder (some r) u w h = (r, refl, h)

  refused-Conflict :
      (key : Key) (r : Resource) (s : Storage B V) (e : Exception)
      → IsValid a s
      → check_uniqueness key s.owners (values_of a r) ≡ err e
      → (e ≡ uniqueness) × Conflict key r s
  refused-Conflict key r s e h refused =
      let (u, w, k, name, m, owned, other) =
        check_uniqueness-err key s.owners (values_of a r) e refused in
      let (r', there, has) =
        holder (found s k) u w (sym (h.described k u) ∙ h.indexed.owned u w k owned) in
      (
        name,
        (
          u,
          w,
          k,
          r',
          (λ same. ground (arith, ==_iff k key)),
          there,
          (item-get (values_of a r) u w (values_of-Distinct a r)).0 m,
          has,
        ),
      )

  accepted-Conflict :
      (key : Key) (r : Resource) (s : Storage B V)
      → IsValid a s
      → check_uniqueness key s.owners (values_of a r) ≡ ok tt
      → ¬ Conflict key r s
  accepted-Conflict key r s h passed (u, w, k, r', other, there, new, has) =
      let owned : get_in s.owners u w ≡ some k =
        h.indexed.owning u w k (h.described k u ∙ rw there has) in
      let free =
        check_uniqueness-item key s.owners (values_of a r) u w passed
          ((item-get (values_of a r) u w (values_of-Distinct a r)).1 new) in
      ground (arith, owned, free, other, ==_iff k key)

  -- A write either stores the resource, or raises and changes nothing: exactly when another resource
  -- has one of its unique values.
  store_checked-cases :
      (key : Key) (r : Resource) (s : Storage B V)
      → IsValid a s
      → (¬ Conflict key r s)
          × ((store_checked a key r s).0 ≡ ok r)
          × Holds key r s (store_checked a key r s).1
        ⊎ Conflict key r s × (store_checked a key r s ≡ (err uniqueness, s))
  unfolding store_checked
  store_checked-cases key r s h =
      elim (Outcome-cases (check_uniqueness key s.owners (values_of a r))) [
        | inl (_, passed) ↦ inl (
          accepted-Conflict key r s h passed,
          rw (passed, store_checked),
          λ k. rw (passed, store_checked) (found-store a key k r (values_of a r) s),
        )
        | inr (e, refused) ↦
            let (name, conflict) = refused-Conflict key r s e h refused in
            inr (conflict, rw (refused, store_checked, name))
      ]

  -- In a storage whose indexes are right, `create` stores a copy with the new identifier under the type and the identifier, returns it, and
  -- leaves all other resources; or raises a uniqueness error, exactly when another resource has one
  -- of its unique values, and then changes only the version counter.
  pub create-cases :
      (id : Text) (now : ℕ) (rt : ResourceType) (r : Resource) (s : Storage B V)
      → IsValid a s
      → (¬ Conflict (some rt.name, id) (new_resource id now rt r s.versions) s)
          × ((create a id now rt r s).0 ≡ ok (new_resource id now rt r s.versions))
          × Holds
              (some rt.name, id)
              (new_resource id now rt r s.versions)
              s
              (create a id now rt r s).1
        ⊎ Conflict (some rt.name, id) (new_resource id now rt r s.versions) s
          × (create a id now rt r s ≡ (err uniqueness, tick s))
  unfolding create
  create-cases id now rt r s h =
      store_checked-cases (some rt.name, id) (new_resource id now rt r s.versions) (tick s)
        (record { indexed = h.indexed; described = h.described })

  -- What a failed write may not change.
  abbrev pub SameContent : Storage B V → Storage B V → Type 0
  SameContent s t = (t.resources ≡ s.resources) × (t.index ≡ s.index)

  store_checked-atomic :
      (key : Key) (r : Resource) (s : Storage B V) (e : Exception)
      → (store_checked a key r s).0 ≡ err e
      → SameContent s (store_checked a key r s).1
  unfolding store_checked
  store_checked-atomic key r s e h =
      elim (Outcome-cases (check_uniqueness key s.owners (values_of a r))) [
        | inl (_, passed) ↦ absurd (success (rw (passed, store_checked) at h))
        | inr (_, refused) ↦ (rw (refused, store_checked), rw (refused, store_checked))
      ]
    where
      success : ok r ≡ err e → ⊥
      success p = cc

  write_update-atomic :
      (now : ℕ) (r : Resource) (m : Option Meta) (s : Storage B V) (e : Exception)
      → (write_update a now r m s).0 ≡ err e
      → SameContent s (write_update a now r m s).1
  unfolding write_update
  write_update-atomic now r none s e h = (refl, refl)
  write_update-atomic now r (some m) s e h =
      let r' : Resource = record r { meta = some (written_meta now s.versions m) } in
      elim (Outcome-cases (key_of r')) [
        | inl (key, p) ↦
            rw (p, write_update)
              (store_checked-atomic key r' (tick s) e (rw (p, write_update) at h))
        | inr (_, p) ↦ rw (p, write_update) (refl, refl)
      ]

  -- An update that raises, for whatever reason, leaves every resource and the index as they were.
  pub update-atomic :
      (now : ℕ) (rt : ResourceType) (r : Resource) (expected : Option Text) (s : Storage B V)
      (e : Exception)
      → (update a now rt r expected s).0 ≡ err e
      → SameContent s (update a now rt r expected s).1
  unfolding update
  update-atomic now rt r expected s e h = elim (Outcome-cases (stored s rt r.id)) [
    | inr (_, p) ↦ rw (p, update) (refl, refl)
    | inl (old, p) ↦ elim (Outcome-cases (check_version old expected >> a.revalidate r)) [
      | inr (_, q) ↦ rw (p, update, q) (refl, refl)
      | inl (r', q) ↦
          rw (p, update, q) (write_update-atomic now r' old.meta s e (rw (p, update, q) at h))
    ]
  ]

  -- The resource has this version, among its other fields.
  abbrev pub HasVersion : Resource → Text → Type 0
  HasVersion r v = (m : Meta) × (r.meta ≡ some m) × (m.version ≡ some v)

  check_version-ok : (r : Resource) (v : Text) → check_version r (some v) ≡ ok tt → HasVersion r v
  unfolding check_version
  check_version-ok r v h = elim (Option-cases r.meta) [
    | inl e ↦ ground (arith, e)
    | inr (m, e) ↦ (m, e, ground (arith, e, h, ==_iff m.version (some v)))
  ]

  -- An update with an expected version only succeeds where the resource in the storage, at the time
  -- of the write, has this version.
  pub update-expected :
      (now : ℕ) (rt : ResourceType) (r r' : Resource) (v : Text) (s : Storage B V)
      → (update a now rt r (some v) s).0 ≡ ok r'
      → (old : Resource) × (stored s rt r.id ≡ ok old) × HasVersion old v
  unfolding update
  update-expected now rt r r' v s h = elim (Outcome-cases (stored s rt r.id)) [
    | inr (e, p) ↦ absurd (failed e (rw (p, update) at h))
    | inl (old, p) ↦ elim (Outcome-cases (check_version old (some v))) [
      | inl (_, q) ↦ (old, p, check_version-ok old v q)
      | inr (e, q) ↦ absurd (failed e (rw (p, update, q) at h))
    ]
  ]
    where
      failed : (e : Exception) → err e ≡ ok r' → ⊥
      failed e h = cc

  -- A deletion with an expected version only succeeds where the resource in the storage, at the time
  -- of the deletion, has this version.
  pub delete-expected :
      (rt : ResourceType) (id : Text) (v : Text) (s : Storage B V)
      → (delete a rt id (some v) s).0 ≡ ok tt
      → (old : Resource) × (stored s rt (some id) ≡ ok old) × HasVersion old v
  unfolding delete
  delete-expected rt id v s h = elim (Outcome-cases (stored s rt (some id))) [
    | inr (e, p) ↦ absurd (failed e (rw (p, delete) at h))
    | inl (old, p) ↦ elim (Outcome-cases (check_version old (some v))) [
      | inl (_, q) ↦ (old, p, check_version-ok old v q)
      | inr (e, q) ↦ absurd (failed e (rw (p, delete, q) at h))
    ]
  ]
    where
      failed : (e : Exception) → ◌≡◌ {A = Outcome (Unit {0})} (err e) (ok tt) → ⊥
      failed e h = cc
