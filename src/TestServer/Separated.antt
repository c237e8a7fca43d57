-- ===== src/TestServer/Separated.antt =====
-- Texts that are cut at a separator, and lists of credentials.
use scim2_server.Applications.{partition}
use scim2_server.Base.{
  some-injective, ℕ, ◌≡◌, refl, sym, ap, ◌∙◌, ◌↔◌, inl, inr, true, false, some, List, [], ◌∷◌, ◌++◌,
  arith, Bool-cases, contains, ◌==◌, ==_iff, ==_refl, nat_eq, Text, text_eq, option_text_eq, ◌≢◌,
  ◌⊎◌, ◌≢◌,
}
use scim2_server.TestServer.{credentials_of, is_empty}
use scim2_server.Base.{Elem}

partition-found :
    (c : ℕ) (before after : Text)
    → contains before c ≡ false
    → partition c (before ++ c ∷ after) ≡ (before, c ∷ [], after)
unfolding partition
partition-found c [] after h = rw (==_refl c) refl
partition-found c (d ∷ before) after h =
    let different : (d == c) ≡ false = ground (arith, h) in
    let rest : contains before c ≡ false = ground (arith, h) in
    rw (different, partition-found c before after rest) refl

-- There is no separator, or the text is cut at the first.
Cut : ℕ → Text → Text × Text × Text → Type 0
Cut c text parts = (parts.1 ≡ []) ⊎ (contains parts.0 c ≡ false) × (text ≡ parts.0 ++ c ∷ parts.2)

partition-Cut : (c : ℕ) (text : Text) → Cut c text (partition c text)
unfolding partition Cut
partition-Cut c [] = inl refl
partition-Cut c (d ∷ text) = elim (Bool-cases (d == c)) [
  | inl same ↦ rw same (inr (refl, ap (λ x. x ∷ text) ((==_iff d c).0 same)))
  | inr different ↦ elim (partition-Cut c text) [
    | inl missing ↦ rw different (inl missing)
    | inr (first, whole) ↦ rw different (inr (rw different first, ap (λ x. d ∷ x) whole))
  ]
]

credentials_of-inv :
    (parts : Text × Text × Text) (user password : Text)
    → credentials_of parts ≡ some (user, password)
    → (parts.0 ≡ user) × (parts.2 ≡ password) × (parts.1 ≢ [])
credentials_of-inv (u, [], p) user password e = cc
credentials_of-inv (u, c ∷ cs, p) user password e =
    (ap (λ x. x.0) (some-injective e), ap (λ x. x.1) (some-injective e), λ q. cc)

pub credentials_of_iff :
    (text user password : Text)
    → (credentials_of (partition b':' text) ≡ some (user, password))
      ↔ (text ≡ user ++ b':' ∷ password) × (contains user b':' ≡ false)
unfolding Cut
credentials_of_iff text user password = (
  λ e.
      let (u, p, separated) = credentials_of-inv (partition b':' text) user password e in
      elim (partition-Cut b':' text) [
        | inl missing ↦ absurd (separated missing)
        | inr (first, whole) ↦ (
          whole ∙ ap (λ x. x ++ b':' ∷ (partition b':' text).2) u ∙ ap (λ x. user ++ b':' ∷ x) p,
          sym (ap (λ x. contains x b':') u) ∙ first,
        )
      ],
  λ (e, first).
      ap (λ x. credentials_of (partition b':' x)) e
      ∙ ap credentials_of (partition-found b':' user password first),
)

pub Elem-contains : (xs : List Text) (x : Text) → (contains xs x ≡ true) ↔ Elem x xs
Elem-contains [] x = (λ e. cc, λ m. absurd m)
Elem-contains (y ∷ ys) x = ground (arith, Elem-contains ys x, ==_iff y x)

pub is_empty_iff : {A : Type 0} (xs : List A) → (is_empty xs ≡ true) ↔ (xs ≡ [])
is_empty_iff [] = (λ e. refl, λ e. refl)
is_empty_iff (x ∷ xs) = (λ e. cc, λ e. cc)
