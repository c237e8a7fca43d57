-- ===== src/Memory/Keeps.antt =====
-- What the public writes of `InMemoryStorage` keep when `next_version`, `_store` and `_remove` do.
use scim2_server.Models.{Meta, Resource, ResourceType}
use scim2_server.Memory.{Key, key_eq, Attributes, Storage, check_uniqueness}
use scim2_server.Memory.Store.{
  remove, store, values_of, store_checked, key_of, stored, check_version, create, write_update,
  update, delete, tick, written_meta,
}
use scim2_server.Base.{
  ℕ, ◌≡◌, inl, inr, Option, none, some, nat_eq, Text, text_eq, option_text_eq, Eq, ok, ◌>>◌,
  Outcome-cases,
}

module _ {B V R : Type 0} ⦃eb : Eq B⦄ ⦃ev : Eq V⦄ (a : Attributes B V R) where
  -- The internal steps keep a property of the state.
  pub record IsKept (P : Storage B V → Type 0) : Type 0 where
    pub ticking : (s : Storage B V) → P s → P (tick s)
    pub storing :
        (key : Key) (r : Resource) (s : Storage B V)
        → check_uniqueness key s.owners (values_of a r) ≡ ok tt
        → P s
        → P (store a key r (values_of a r) s)
    pub removing : (key : Key) (s : Storage B V) → P s → P (remove key s)

  module _ (P : Storage B V → Type 0) (kept : IsKept P) where
    store_checked-keeps :
        (key : Key) (r : Resource) (s : Storage B V) → P s → P (store_checked a key r s).1
    unfolding store_checked
    store_checked-keeps key r s h =
        elim (Outcome-cases (check_uniqueness key s.owners (values_of a r))) [
          | inl (_, passed) ↦ rw (passed, store_checked) (kept.storing key r s passed h)
          | inr (_, failed) ↦ rw (failed, store_checked) h
        ]

    pub create-keeps :
        (id : Text) (now : ℕ) (rt : ResourceType) (r : Resource) (s : Storage B V)
        → P s
        → P (create a id now rt r s).1
    unfolding create
    create-keeps id now rt r s h = store_checked-keeps _ _ (tick s) (kept.ticking s h)

    write_update-keeps :
        (now : ℕ) (r : Resource) (m : Option Meta) (s : Storage B V)
        → P s
        → P (write_update a now r m s).1
    unfolding write_update
    write_update-keeps now r none s h = h
    write_update-keeps now r (some m) s h =
        elim (Outcome-cases (key_of (record r { meta = some (written_meta now s.versions m) }))) [
          | inl (key, e) ↦
              rw (e, write_update) (store_checked-keeps key _ (tick s) (kept.ticking s h))
          | inr (_, e) ↦ rw (e, write_update) (kept.ticking s h)
        ]

    pub update-keeps :
        (now : ℕ) (rt : ResourceType) (r : Resource) (expected : Option Text) (s : Storage B V)
        → P s
        → P (update a now rt r expected s).1
    unfolding update
    update-keeps now rt r expected s h = elim (Outcome-cases (stored s rt r.id)) [
      | inr (_, e) ↦ rw (e, update) h
      | inl (old, e) ↦ elim (Outcome-cases (check_version old expected >> a.revalidate r)) [
        | inr (_, e') ↦ rw (e, update, e') h
        | inl (r', e') ↦ rw (e, update, e') (write_update-keeps now r' old.meta s h)
      ]
    ]

    pub delete-keeps :
        (rt : ResourceType) (id : Text) (expected : Option Text) (s : Storage B V)
        → P s
        → P (delete a rt id expected s).1
    unfolding delete
    delete-keeps rt id expected s h = elim (Outcome-cases (stored s rt (some id))) [
      | inr (_, e) ↦ rw (e, delete) h
      | inl (old, e) ↦ elim (Outcome-cases (check_version old expected >> key_of old)) [
        | inr (_, e') ↦ rw (e, delete, e') h
        | inl (key, e') ↦ rw (e, delete, e') (kept.removing key s h)
      ]
    ]
