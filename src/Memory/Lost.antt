-- ===== src/Memory/Lost.antt =====
-- No update of `InMemoryStorage` is lost: a version names one state of one resource, whatever was written since.
use scim2_server.Base.Dict
use scim2_server.Models.{Resource, ResourceType}
use scim2_server.Memory.{Key, key_eq, Attributes, Storage}
use scim2_server.Memory.Store.{stored, update, get, delete, version_text}
use scim2_server.Memory.Found.{found}
use scim2_server.Memory.Valid.{Write, empty}
use scim2_server.Memory.Writes.{HasVersion}
use scim2_server.Memory.Versions.{version_text-injective}
use scim2_server.Base.{
  ℕ, ◌<◌, ◌≤◌, ◌≡◌, refl, sym, ap, ◌∙◌, inl, inr, Option, none, some, arith, nat_eq, Text, text_eq,
  option_text_eq, Eq, ok, ◌⊎◌,
}
use scim2_server.Memory.Valid.{Reached, new, next}
use scim2_server.Memory.Search.{SameStored}
use scim2_server.Memory.Later.{Follows-same, IsNth, Follows, Write-Follows}
use scim2_server.Memory.Writes.{update-expected, delete-expected}

module _ {B V R : Type 0} ⦃eb : Eq B⦄ ⦃ev : Eq V⦄ (a : Attributes B V R) where
  -- Each stored resource has a version that the counter gave, and no two have the same.
  pub record IsVersioned (s : Storage B V) : Type 0 where
    pub numbered :
        (k : Key) (r : Resource) → found s k ≡ some r → (n : ℕ) × (n < s.versions) × IsNth a r n
    pub distinct :
        (k k' : Key) (r r' : Resource) (v : Text)
        → found s k ≡ some r
        → found s k' ≡ some r'
        → HasVersion a r v
        → HasVersion a r' v
        → k ≡ k'

  HasVersion-unique : (r : Resource) (v w : Text) → HasVersion a r v → HasVersion a r w → v ≡ w
  HasVersion-unique r v w (m, e, p) (m', e', p') = ground (arith, e, p, e', p')

  -- A version that was given is not given again.
  not-given :
      (s : Storage B V) (k : Key) (r r' : Resource) (v : Text) (n : ℕ)
      → IsVersioned s
      → found s k ≡ some r
      → HasVersion a r v
      → HasVersion a r' v
      → IsNth a r' n
      → s.versions ≤ n
      → ⊥
  not-given s k r r' v n h e has has' nth later =
      let (m, below, mth) = h.numbered k r e in
      let same : m ≡ n = version_text-injective m n (
        sym (HasVersion-unique r v (version_text m) has mth)
        ∙ HasVersion-unique r' v (version_text n) has' nth) in
      ground (arith, same)

  Follows-IsVersioned : (s t : Storage B V) → Follows a s t → IsVersioned s → IsVersioned t
  Follows-IsVersioned s t f h = record {
    numbered = λ k r e. elim (f.kept k r e) [
      | inl before ↦
          (let (n, below, nth) = h.numbered k r before in (n, ground (arith, f.grown), nth))
      | inr (_, nth, below) ↦ (s.versions, below, nth)
    ];
    distinct = λ k k' r r' v e e' has has'. elim (f.kept k r e) [
      | inl before ↦ elim (f.kept k' r' e') [
        | inl before' ↦ h.distinct k k' r r' v before before' has has'
        | inr (_, nth, below) ↦
            absurd (not-given s k r r' v s.versions h before has has' nth (omega arith))
      ]
      | inr (here, nth, below) ↦ elim (f.kept k' r' e') [
        | inl before' ↦
            absurd (not-given s k' r' r v s.versions h before' has' has nth (omega arith))
        | inr (here', _, _) ↦ here ∙ sym here'
      ]
    ];
  }

  SameStored-Follows : (s t : Storage B V) → SameStored a s t → Follows a s t
  SameStored-Follows s t (resources, _, versions) =
      Follows-same a s t resources (ground (arith, versions))

  -- What calls bring a storage to: each is a write, or leaves what is stored, as a search does that
  -- fills the index of equal values.
  pub data Calls (s : Storage B V) : Storage B V → Type 0 where
    same : Calls s s
    wrote : {t u : Storage B V} → Calls s t → Write a t u → Calls s u
    read : {t u : Storage B V} → Calls s t → SameStored a t u → Calls s u

  pub Calls-trans : {s t u : Storage B V} → Calls s t → Calls t u → Calls s u
  Calls-trans ws same = ws
  Calls-trans ws (wrote ws' w) = wrote (Calls-trans ws ws') w
  Calls-trans ws (read ws' e) = read (Calls-trans ws ws') e

  pub Calls-IsVersioned : {s t : Storage B V} → Calls s t → IsVersioned s → IsVersioned t
  Calls-IsVersioned same h = h
  Calls-IsVersioned (wrote {t} {u} ws w) h =
      Follows-IsVersioned t u (Write-Follows a w) (Calls-IsVersioned ws h)
  Calls-IsVersioned (read {t} {u} ws e) h =
      Follows-IsVersioned t u (SameStored-Follows t u e) (Calls-IsVersioned ws h)

  -- What a step from `t` to `u` leaves of what was in `s`.
  abbrev Kept : Storage B V → Storage B V → Type 0
  Kept s t =
      (s.versions ≤ t.versions)
      × ((k : Key) (r : Resource)
          → found t k ≡ some r
          → (found s k ≡ some r) ⊎ (n : ℕ) × (s.versions ≤ n) × IsNth a r n)

  Follows-Kept : (s t u : Storage B V) → Kept s t → Follows a t u → Kept s u
  Follows-Kept s t u (grown, kept) f = (
    ground (arith, f.grown),
    λ k r e. elim (f.kept k r e) [
      | inl before ↦ kept k r before
      | inr (_, nth, _) ↦ inr (t.versions, grown, nth)
    ],
  )

  Calls-Kept : {s t : Storage B V} → Calls s t → Kept s t
  Calls-Kept same = (omega arith, λ k r e. inl e)
  Calls-Kept {s} (wrote {t} {u} ws w) = Follows-Kept s t u (Calls-Kept ws) (Write-Follows a w)
  Calls-Kept {s} (read {t} {u} ws e) = Follows-Kept s t u (Calls-Kept ws) (SameStored-Follows t u e)

  -- A resource with the version of an earlier one is this one.
  same_version :
      (s t : Storage B V) (k k' : Key) (r r' : Resource) (v : Text)
      → IsVersioned s
      → Calls s t
      → found s k ≡ some r
      → found t k' ≡ some r'
      → HasVersion a r v
      → HasVersion a r' v
      → found t k ≡ some r
  same_version s t k k' r r' v h ws e e' has has' = elim ((Calls-Kept ws).1 k' r' e') [
    | inl before ↦
        let same_key : k ≡ k' = h.distinct k k' r r' v e before has has' in
        let same_resource : r' ≡ r = ground (arith, before, e, same_key) in
        ap (found t) same_key ∙ e' ∙ ap (λ x. some x) same_resource
    | inr (n, later, nth) ↦ absurd (not-given s k r r' v n h e has has' nth later)
  ]

  stored-found :
      (s : Storage B V) (rt : ResourceType) (id : Option Text) (r : Resource)
      → stored s rt id ≡ ok r
      → (i : Text) × (id ≡ some i) × (found s (some rt.name, i) ≡ some r)
  unfolding stored
  stored-found s rt none r e = cc
  stored-found s rt (some i) r e = (i, refl, ground (arith, e))

  found-get :
      (s : Storage B V) (rt : ResourceType) (id : Text) (r : Resource)
      → found s (some rt.name, id) ≡ some r
      → get s rt id ≡ ok r
  unfolding get stored
  found-get s rt id r e = ground (arith, e)

  pub get-found :
      (s : Storage B V) (rt : ResourceType) (id : Text) (r : Resource)
      → get s rt id ≡ ok r
      → found s (some rt.name, id) ≡ some r
  unfolding get stored
  get-found s rt id r e = ground (arith, e)

  -- When a client reads a resource, other clients then write whatever they want, and at last an
  -- update that expects the version that was read succeeds, the storage still held at that moment the very resource
  -- that was read: no write of another client is overwritten unseen.
  pub update-unchanged :
      (now : ℕ) (rt rt' : ResourceType) (id : Text) (before r written : Resource) (v : Text)
      (s t : Storage B V)
      → IsVersioned s
      → get s rt id ≡ ok before
      → HasVersion a before v
      → Calls s t
      → (update a now rt' r (some v) t).0 ≡ ok written
      → get t rt id ≡ ok before
  update-unchanged now rt rt' id before r written v s t h e has ws success =
      let (old, there, has') = update-expected a now rt' r written v t success in
      let (i, _, here) = stored-found t rt' r.id old there in
      found-get t rt id before (
        same_version s t (some rt.name, id) (some rt'.name, i) before old v h ws
          (get-found s rt id before e) here has has')

  pub delete-unchanged :
      (rt rt' : ResourceType) (id id' : Text) (before : Resource) (v : Text) (s t : Storage B V)
      → IsVersioned s
      → get s rt id ≡ ok before
      → HasVersion a before v
      → Calls s t
      → (delete a rt' id' (some v) t).0 ≡ ok tt
      → get t rt id ≡ ok before
  delete-unchanged rt rt' id id' before v s t h e has ws success =
      let (old, there, has') = delete-expected a rt' id' v t success in
      let (i, _, here) = stored-found t rt' (some id') old there in
      found-get t rt id before (
        same_version s t (some rt.name, id) (some rt'.name, i) before old v h ws
          (get-found s rt id before e) here has has')

  empty-IsVersioned : IsVersioned empty
  unfolding Dict.get
  empty-IsVersioned = record { numbered = λ k r e. cc; distinct = λ k k' r r' v e e' has has'. cc }

  pub Reached-IsVersioned : {s : Storage B V} → Reached a s → IsVersioned s
  Reached-IsVersioned new = empty-IsVersioned
  Reached-IsVersioned (next {s} {t} reached w) =
      Follows-IsVersioned s t (Write-Follows a w) (Reached-IsVersioned reached)
