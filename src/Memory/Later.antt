-- ===== src/Memory/Later.antt =====
-- What a write of `InMemoryStorage` leaves of the earlier resources: each write gives its resource a
-- version that no other resource has or had.
use scim2_server.Base.Dict
use scim2_server.Models.{Resource, Meta, ResourceType}
use scim2_server.Memory.{Key, key_eq, Attributes, Storage, get_in, check_uniqueness}
use scim2_server.Memory.Store.{
  values_of, store_checked, key_of, stored, check_version, new_resource, create, write_update,
  update, tick, written_meta, delete, remove, version_text,
}
use scim2_server.Memory.Found.{found, found-store, found-remove, versions-store}
use scim2_server.Memory.Valid.{Write, created, updated, deleted}
use scim2_server.Memory.Writes.{HasVersion}
use scim2_server.Base.{
  ℕ, ◌<◌, ◌≤◌, ◌≡◌, refl, sym, ap, ◌∙◌, subst, inl, inr, Option, none, some, [], arith, Bool-cases,
  ◌==◌, ==_iff, nat_eq, Text, text_eq, option_text_eq, Eq, ◌>>◌, Outcome-cases, ◌⊎◌,
}

module _ {B V R : Type 0} ⦃eb : Eq B⦄ ⦃ev : Eq V⦄ (a : Attributes B V R) where
  -- A resource with the n-th version.
  abbrev pub IsNth : Resource → ℕ → Type 0
  IsNth r n = HasVersion a r (version_text n)

  -- A storage `t` that has only the resources of `s`, but perhaps one with the next version.
  pub record Follows (s t : Storage B V) : Type 0 where
    pub key : Key
    pub grown : s.versions ≤ t.versions
    pub kept :
        (k : Key) (r : Resource)
        → found t k ≡ some r
        → (found s k ≡ some r) ⊎ (k ≡ key) × IsNth r s.versions × (s.versions < t.versions)

  pub Follows-same :
      (s t : Storage B V) → t.resources ≡ s.resources → s.versions ≤ t.versions → Follows s t
  Follows-same s t e h = record {
    key = (none, []);
    grown = h;
    kept = λ k r p. inl (
        sym (ap (λ (d : Dict.Dict (Option Text) (Dict.Dict Text Resource)). get_in d k.0 k.1) e)
        ∙ p);
  }

  remove-versions : (key : Key) (s : Storage B V) → (remove key s).versions ≡ s.versions
  unfolding remove
  remove-versions key s = refl

  remove-Follows : (key : Key) (s : Storage B V) → Follows s (remove key s)
  remove-Follows key s = record {
    key = key;
    grown = ground (arith, remove-versions key s);
    kept = λ k r p. ground (arith, p, found-remove key k s);
  }

  store_checked-Follows :
      (key : Key) (r : Resource) (s : Storage B V)
      → IsNth r s.versions
      → Follows s (store_checked a key r (tick s)).1
  unfolding store_checked
  store_checked-Follows key r s nth =
      elim (Outcome-cases (check_uniqueness key s.owners (values_of a r))) [
        | inr (_, refused) ↦
            rw (refused, store_checked) (Follows-same s (tick s) refl (omega arith))
        | inl (_, passed) ↦
            rw (passed, store_checked)
              (record {
                key = key;
                grown = ground (arith, versions-store a key r (values_of a r) (tick s));
                kept = λ k r' p. elim (Bool-cases (key == k)) [
                  | inl same ↦
                      let stored_here : r ≡ r' =
                        ground (arith, p, same, found-store a key k r (values_of a r) (tick s)) in
                      inr (
                        sym ((==_iff key k).0 same),
                        subst (λ x. IsNth x s.versions) stored_here nth,
                        ground (arith, versions-store a key r (values_of a r) (tick s)),
                      )
                  | inr other ↦
                      inl (ground (arith, p, other, found-store a key k r (values_of a r) (tick s)))
                ];
              })
      ]

  write_update-Follows :
      (now : ℕ) (r : Resource) (m : Option Meta) (s : Storage B V)
      → Follows s (write_update a now r m s).1
  unfolding write_update
  write_update-Follows now r none s = Follows-same s s refl (omega arith)
  write_update-Follows now r (some m) s =
      let r' : Resource = record r { meta = some (written_meta now s.versions m) } in
      elim (Outcome-cases (key_of r')) [
        | inl (key, e) ↦
            rw (e, write_update)
              (store_checked-Follows key r' s (written_meta now s.versions m, refl, refl))
        | inr (_, e) ↦ rw (e, write_update) (Follows-same s (tick s) refl (omega arith))
      ]

  create-Follows :
      (id : Text) (now : ℕ) (rt : ResourceType) (r : Resource) (s : Storage B V)
      → Follows s (create a id now rt r s).1
  unfolding create
  create-Follows id now rt r s =
      store_checked-Follows (some rt.name, id) (new_resource id now rt r s.versions) s
        (_, refl, refl)

  update-Follows :
      (now : ℕ) (rt : ResourceType) (r : Resource) (expected : Option Text) (s : Storage B V)
      → Follows s (update a now rt r expected s).1
  unfolding update
  update-Follows now rt r expected s = elim (Outcome-cases (stored s rt r.id)) [
    | inr (_, e) ↦ rw (e, update) (Follows-same s s refl (omega arith))
    | inl (old, e) ↦ elim (Outcome-cases (check_version old expected >> a.revalidate r)) [
      | inr (_, e') ↦ rw (e, update, e') (Follows-same s s refl (omega arith))
      | inl (r', e') ↦ rw (e, update, e') (write_update-Follows now r' old.meta s)
    ]
  ]

  delete-Follows :
      (rt : ResourceType) (id : Text) (expected : Option Text) (s : Storage B V)
      → Follows s (delete a rt id expected s).1
  unfolding delete
  delete-Follows rt id expected s = elim (Outcome-cases (stored s rt (some id))) [
    | inr (_, e) ↦ rw (e, delete) (Follows-same s s refl (omega arith))
    | inl (old, e) ↦ elim (Outcome-cases (check_version old expected >> key_of old)) [
      | inr (_, e') ↦ rw (e, delete, e') (Follows-same s s refl (omega arith))
      | inl (key, e') ↦ rw (e, delete, e') (remove-Follows key s)
    ]
  ]

  pub Write-Follows : {s t : Storage B V} → Write a s t → Follows s t
  Write-Follows {s} (created id now rt r) = create-Follows id now rt r s
  Write-Follows {s} (updated now rt r expected) = update-Follows now rt r expected s
  Write-Follows {s} (deleted rt id expected) = delete-Follows rt id expected s
