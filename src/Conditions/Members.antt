-- ===== src/Conditions/Members.antt =====
-- The loop over the matches of `ENTITY_TAG`: each takes at least one character, so the length of
-- the header is fuel enough.
use scim2_server.Conditions.{
  drop_weak, until_quote, until_comma, bare_member, close_quoted, read_alternatives, read_member,
  add_member, read_members,
}
use scim2_server.Base.{
  ℕ, zero, suc, ◌-◌, ◌≤◌, ◌<◌, ◌≡◌, refl, inl, inr, Bool, some, List, [], ◌∷◌, arith, Option-cases,
  length, nat_eq, Text, text_eq, option_text_eq, lstrip, is_space,
}

length-lstrip : (p : ℕ → Bool) (s : Text) → length (lstrip p s) ≤ length s
unfolding lstrip
length-lstrip p [] = omega arith
length-lstrip p (c ∷ s) = ground (arith, length-lstrip p s)

length-drop_weak : (s : Text) → length (drop_weak s) ≤ length s
unfolding drop_weak
length-drop_weak [] = omega arith
length-drop_weak (c ∷ []) = omega arith
length-drop_weak (c ∷ d ∷ s) = ground arith

length-until_quote :
    (s : Text) {content rest : Text} → until_quote s ≡ some (content, rest) → length rest < length s
unfolding until_quote
length-until_quote [] h = cc
length-until_quote (c ∷ s) {content} {rest} h = elim (Option-cases (until_quote s)) [
  | inl e ↦ ground arith
  | inr ((content', rest'), e) ↦ ground (arith, length-until_quote s e)
]

length-until_comma : (s : Text) → length (until_comma s).1 ≤ length s - 1
unfolding until_comma
length-until_comma [] = omega arith
length-until_comma (c ∷ s) = ground (arith, length-until_comma s)

length-bare_member : (s : Text) → length (bare_member s).1 ≤ length s - 1
unfolding bare_member
length-bare_member s = length-until_comma s

length-close_quoted :
    (s content rest : Text)
    → length rest < length s
    → length (close_quoted s content rest).1 ≤ length s - 1
unfolding close_quoted
length-close_quoted s content [] h = ground arith
length-close_quoted s content (c ∷ rest) h = ground (arith, length-bare_member s)

length-read_alternatives : (s : Text) → length (read_alternatives s).1 ≤ length s - 1
unfolding read_alternatives
length-read_alternatives [] = omega arith
length-read_alternatives (c ∷ s) = elim (Option-cases (until_quote s)) [
  | inl e ↦ ground (arith, length-bare_member (c ∷ s))
  | inr ((content, rest), e) ↦ ground (
    arith,
    length-bare_member (c ∷ s),
    length-until_quote s e,
    length-lstrip is_space rest,
    length-close_quoted (c ∷ s) content (lstrip is_space rest),
  )
]

pub length-read_member : (s : Text) → length (read_member s).1 ≤ length s - 1
unfolding read_member
length-read_member s = omega (
  arith,
  length-read_alternatives (drop_weak (lstrip is_space s)),
  length-drop_weak (lstrip is_space s),
  length-lstrip is_space s,
)

-- Any two fuels from the length of the header on give the same tags: the loop ends at the end of
-- the header, and not for want of fuel.
pub read_members-fuel :
    (fuel fuel' : ℕ) (s : Text) (tags : List Text)
    → length s ≤ fuel
    → length s ≤ fuel'
    → read_members fuel s tags ≡ read_members fuel' s tags
unfolding read_members
read_members-fuel zero zero [] tags h h' = refl
read_members-fuel zero (suc fuel') [] tags h h' = refl
read_members-fuel (suc fuel) zero [] tags h h' = refl
read_members-fuel (suc fuel) (suc fuel') [] tags h h' = refl
read_members-fuel zero fuel' (c ∷ s) tags h h' = absurd (omega arith)
read_members-fuel (suc fuel) zero (c ∷ s) tags h h' = absurd (omega arith)
read_members-fuel (suc fuel) (suc fuel') (c ∷ s) tags h h' =
    let (member, rest) = read_member (c ∷ s) in
    elim (Option-cases (add_member member tags)) [
      | inl e ↦ rw e
      | inr (tags', e) ↦ rw e (
          read_members-fuel fuel fuel' rest tags' (omega (arith, length-read_member (c ∷ s)))
            (omega (arith, length-read_member (c ∷ s))))
    ]
