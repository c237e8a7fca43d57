-- ===== src/Conditions/Lists.antt =====
-- Headers that list weak entity tags, as a client sends back the versions it received.
use scim2_server.Conditions.{
  drop_weak, quoted, until_quote, close_quoted, read_alternatives, read_member, add_member,
  read_members, parse,
}
use mathlib.Core.List.{append_assoc}
use scim2_server.Base.{
  ℕ, zero, suc, ◌<◌, ◌≡◌, refl, ap, ◌∙◌, false, some, List, [], ◌∷◌, ◌++◌, map, arith, nat_beq,
  length, length-append, All, ◌==◌, nat_eq, Text, codes, text_beq, text_eq, option_text_eq, lstrip,
  strip_before, rstrip, strip, is_space, join,
}

-- W/"tag"
abbrev pub weak_tag : Text → Text
weak_tag tag = b'W' ∷ b'/' ∷ b'"' ∷ (tag ++ b'"' ∷ [])

-- `", ".join(f'W/"{tag}"' for tag in tags)`
abbrev pub list_header : List Text → Text
list_header tags = join (codes ", ") (map weak_tag tags)

-- A tag that holds no quote.
abbrev pub Unquoted : Text → Type 0
Unquoted tag = All (λ c. nat_beq c b'"' ≡ false) tag

until_quote-append :
    (tag rest : Text) → Unquoted tag → until_quote (tag ++ b'"' ∷ rest) ≡ some (tag, rest)
unfolding until_quote
until_quote-append [] rest h = refl
until_quote-append (c ∷ tag) rest h = rw (h.0, until_quote-append tag rest h.1)

-- A weak tag is read up to the comma behind it, or up to the end.
read_member-weak_last : (tag : Text) → Unquoted tag → read_member (weak_tag tag) ≡ (quoted tag, [])
unfolding read_member read_alternatives drop_weak lstrip is_space close_quoted
read_member-weak_last tag h = rw (until_quote-append tag [] h)

read_member-weak :
    (tag rest : Text)
    → Unquoted tag
    → read_member (b'W' ∷ b'/' ∷ b'"' ∷ (tag ++ b'"' ∷ b',' ∷ rest)) ≡ (quoted tag, rest)
unfolding read_member read_alternatives drop_weak lstrip is_space close_quoted
read_member-weak tag rest h = rw (until_quote-append tag (b',' ∷ rest) h)

read_member-blank : (s : Text) → read_member (b' ' ∷ s) ≡ read_member s
unfolding read_member lstrip is_space
read_member-blank s = refl

abbrev pub listed : List Text → List Text → List Text
listed [] tags = tags
listed (x ∷ xs) tags = listed xs (x ∷ tags)

read_members-nil :
    (fuel : ℕ) (tags : List Text) → read_members fuel [] tags ≡ record { tags = tags; any = false }
unfolding read_members
read_members-nil zero tags = refl
read_members-nil (suc fuel) tags = refl

read_members-cons :
    (fuel c : ℕ) (s tag rest : Text) (tags : List Text)
    → read_member (c ∷ s) ≡ (quoted tag, rest)
    → read_members (suc fuel) (c ∷ s) tags ≡ read_members fuel rest (tag ∷ tags)
unfolding read_members add_member
read_members-cons fuel c s tag rest tags e = rw (e, read_members)

read_members-blank :
    (fuel : ℕ) (y : Text) (ys tags : List Text)
    → read_members fuel (b' ' ∷ list_header (y ∷ ys)) tags
      ≡ read_members fuel (list_header (y ∷ ys)) tags
unfolding read_members join
read_members-blank zero y ys tags = refl
read_members-blank (suc fuel) y [] tags = rw (read_member-blank (weak_tag y), read_members)
read_members-blank (suc fuel) y (z ∷ ys) tags =
    rw (read_member-blank (list_header (y ∷ z ∷ ys)), read_members)

list_header-cons :
    (x y : Text) (ys : List Text)
    → list_header (x ∷ y ∷ ys)
      ≡ b'W' ∷ b'/' ∷ b'"' ∷ (x ++ b'"' ∷ b',' ∷ b' ' ∷ list_header (y ∷ ys))
unfolding join
list_header-cons x y ys =
    ap (λ (t : Text). b'W' ∷ b'/' ∷ b'"' ∷ t)
      (append_assoc x (b'"' ∷ []) (codes ", " ++ list_header (y ∷ ys)))

read_members-list :
    (fuel : ℕ) (x : Text) (xs tags : List Text)
    → length xs < fuel
    → All Unquoted (x ∷ xs)
    → read_members fuel (list_header (x ∷ xs)) tags
      ≡ record { tags = listed (x ∷ xs) tags; any = false }
unfolding join
read_members-list zero x xs tags m h = absurd (omega arith)
read_members-list (suc fuel) x [] tags m h =
    read_members-cons fuel _ _ x [] tags (read_member-weak_last x h.0)
    ∙ read_members-nil fuel (x ∷ tags)
read_members-list (suc fuel) x (y ∷ ys) tags m h = rw list_header-cons (
    read_members-cons fuel _ _ x _ tags (read_member-weak x _ h.0)
    ∙ read_members-blank fuel y ys (x ∷ tags)
    ∙ read_members-list fuel y ys (x ∷ tags) (omega arith) h.1)

length-list_header : (x : Text) (xs : List Text) → length xs < length (list_header (x ∷ xs))
length-list_header x [] = unfold join in omega arith
length-list_header x (y ∷ ys) = omega (
  arith,
  ap length (list_header-cons x y ys),
  length-append x (b'"' ∷ b',' ∷ b' ' ∷ list_header (y ∷ ys)),
  length-list_header y ys,
)

strip_before-W : (s : Text) → (strip_before is_space b'W' s == []) ≡ false
unfolding is_space text_beq
strip_before-W [] = refl
strip_before-W (c ∷ s) = refl

strip-list_header :
    (x : Text) (xs : List Text) → (strip is_space (list_header (x ∷ xs)) == []) ≡ false
unfolding strip is_space join
strip-list_header x [] = strip_before-W (rstrip is_space (b'/' ∷ b'"' ∷ (x ++ b'"' ∷ [])))
strip-list_header x (y ∷ ys) =
    strip_before-W
      (rstrip is_space (b'/' ∷ b'"' ∷ ((x ++ b'"' ∷ []) ++ (codes ", " ++ list_header (y ∷ ys)))))

-- A header of weak tags without quotes is read as the list of these tags, and not as "*".
pub parse-list_header :
    (x : Text) (xs : List Text)
    → All Unquoted (x ∷ xs)
    → parse (some (list_header (x ∷ xs))) ≡ some (record { tags = listed (x ∷ xs) []; any = false })
unfolding parse
parse-list_header x xs h = rw (
  strip-list_header x xs,
  read_members-list (length (list_header (x ∷ xs))) x xs [] (length-list_header x xs) h,
)
