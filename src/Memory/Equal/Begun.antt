-- ===== src/Memory/Equal/Begun.antt =====
-- The empty index that `_equality_index` begins with.
use scim2_server.Base.Dict
use scim2_server.Base.Dict.{Dict, get-put, get-pop}
use scim2_server.Memory.{key_eq, Attributes, Storage, inner}
use scim2_server.Memory.Store.{missing_eq}
use scim2_server.Memory.Found.{inner-put, inner-eq}
use scim2_server.Memory.Equal.{indexed}
use scim2_server.Memory.Equal.Described.{Describes}
use scim2_server.Base.{
  ◌≡◌, refl, sym, ap, ◌∙◌, inl, inr, Bool, ◌&&◌, ◌||◌, Option, none, some, List, [], arith,
  Bool-cases, contains, ◌==◌, ==_iff, nat_eq, Text, text_eq, option_text_eq, Eq,
}
use scim2_server.Memory.Equal.Described.{Describes}

module _ {B V : Type 0} ⦃eb : Eq B⦄ ⦃ev : Eq V⦄ where
  -- The index that `_equality_index` begins with.
  abbrev pub begun : Text → B → Storage B V → Storage B V
  begun name b s = record s {
    equalities = Dict.put s.equalities (some name) (Dict.put (inner s.equalities (some name)) b []);
  }

  begun-inner :
      (name : Text) (b : B) (s : Storage B V) (n : Option Text) (b' : B)
      → Dict.get (inner s.equalities (some name)) b ≡ none
      → inner (inner (begun name b s).equalities n) b' ≡ inner (inner s.equalities n) b'
  begun-inner name b s n b' missing =
      let outer =
        inner-put s.equalities (some name) n (Dict.put (inner s.equalities (some name)) b []) in
      elim (Bool-cases (some name == n)) [
        | inr e ↦ ap (λ x. inner x b') {y = inner s.equalities n} (outer ∙ rw e refl)
        | inl e ↦
            ap (λ x. inner x b') {y = Dict.put (inner s.equalities (some name)) b []}
              (outer ∙ rw e refl)
            ∙ inner-put (inner s.equalities (some name)) b b' []
            ∙ elim (Bool-cases (b == b')) [
              | inl e' ↦
                  let nothing : inner (inner s.equalities (some name)) b ≡ [] =
                    ground (arith, missing) in
                  rw e' (
                    sym nothing
                    ∙ ap (λ x. inner x b) (inner-eq s.equalities (some name) n e)
                    ∙ inner-eq (inner s.equalities n) b b' e')
              | inr e' ↦ rw e' (ap (λ x. inner x b') (inner-eq s.equalities (some name) n e))
            ]
      ]

  pub begun-indexed :
      (name : Text) (b : B) (s : Storage B V) (n : Option Text) (b' : B)
      → indexed (begun name b s).equalities n b'
        ≡ (some name == n && b == b') || indexed s.equalities n b'
  begun-indexed name b s n b' = ground (
    arith,
    inner-put s.equalities (some name) n (Dict.put (inner s.equalities (some name)) b []),
    get-put (inner s.equalities (some name)) b [] b',
    ==_iff (some name) n,
    ==_iff b b',
  )

module _ {B V R : Type 0} ⦃eb : Eq B⦄ ⦃ev : Eq V⦄ (a : Attributes B V R) where
  pub begun-Describes :
      (cover : Option Text → B → Text → Bool) (name : Text) (b : B) (s : Storage B V)
      → Dict.get (inner s.equalities (some name)) b ≡ none
      → Describes a cover s
      → Describes a cover (begun name b s)
  begun-Describes cover name b s missing d = record {
    listed = λ n b' v id.
        ap
          (λ (m : Dict (Option V) (List Text)).
            contains (elim (Dict.get m v) as (λ x. List Text) [ none ↦ [] | some ids ↦ ids ]) id)
          (begun-inner name b s n b' missing)
        ∙ d.listed n b' v id;
    paired = d.paired;
  }
