-- ===== src/Conditions.antt =====
-- scim2_server/conditions.py: entity tags and the conditional headers of a request.
mod Members
pub mod Lists
pub mod Checks
mod Tests
use scim2_server.Base.{
  ℕ, zero, suc, ◌+◌, ◌-◌, ◌≤◌, ◌<◌, min, String, ◌≡◌, refl, sym, ap, ◌∙◌, subst, ◌≢◌, ◌↔◌, ◌⊎◌, inl,
  inr, Bool, true, false, not, ◌&&◌, ◌||◌, Option, none, some, List, [], ◌∷◌, ◌++◌, map, arith, ltb,
  leb, nat_beq, if◌then◌else◌, ltb→lt, nat_beq_iff, Bool-cases, Option-cases, length, get_elem?,
  take, drop, length-append, keep, All, Elem, All-elem, contains, ◌==◌, ==_iff, ==_refl, nat_eq,
  list_beq, list_beq_iff, option_beq, option_beq_iff, Text, codes, text_beq, text_beq_iff, text_eq,
  option_text_eq, Eq, lstrip, strip_before, rstrip, strip, is_slash, is_space, cons_head, split,
  join, text_ltb, sorted_set, starts_with, ◌>>=◌, ◌>>◌, raise_if, >>=-eq-ok, Exception, Outcome, ok,
  err, not_found, invalid_value, conflict, precondition_failed, uniqueness, not_implemented,
  forbidden, unauthorized, payload_too_large, invalid_syntax, invalid_cursor, invalid_count,
  expired_cursor, unsupported_media_type, method_not_allowed, scim_error, runtime_error,
  value_error, type_error, assertion_error,
}

unfoldable pub drop_weak : Text → Text
drop_weak (c ∷ d ∷ s) =
    if (nat_beq c b'W' || nat_beq c b'w') && nat_beq d b'/' then s else c ∷ d ∷ s
drop_weak s = s

-- `s[:-1]`, and whether `s[-1]` is a quote
unfoldable pub init : Text → Text
init [] = []
init (c ∷ []) = []
init (c ∷ d ∷ s) = c ∷ init (d ∷ s)

unfoldable pub ends_quoted : Text → Bool
ends_quoted [] = false
ends_quoted (c ∷ []) = nat_beq c b'"'
ends_quoted (c ∷ d ∷ s) = ends_quoted (d ∷ s)

unfoldable pub drop_quotes : Text → Text
unfolding init ends_quoted
drop_quotes (c ∷ d ∷ s) = if nat_beq c b'"' && ends_quoted (d ∷ s) then init (d ∷ s) else c ∷ d ∷ s
drop_quotes s = s

unfoldable pub opaque_tag : Text → Text
unfolding strip drop_weak drop_quotes
opaque_tag entity_tag = drop_quotes (drop_weak (strip is_space entity_tag))

pub record EntityTags : Type 0 where
  pub tags : List Text
  pub any : Bool

-- The groups of a match of `ENTITY_TAG`: one of the two is there.
pub data Member : Type 0 where
  quoted bare : Text → Member

-- `[^"]*"`: the text up to a quote, and what follows it.
unfoldable pub until_quote : Text → Option (Text × Text)
until_quote [] = none
until_quote (c ∷ s) =
    if nat_beq c b'"'
    then some ([], s)
    else elim (until_quote s) [ none ↦ none | some (content, rest) ↦ some (c ∷ content, rest) ]

-- `[^,]*`, and what follows the comma.
unfoldable pub until_comma : Text → Text × Text
until_comma [] = ([], [])
until_comma (c ∷ s) =
    if nat_beq c b',' then ([], s) else (let (segment, rest) = until_comma s in (c ∷ segment, rest))

-- The second alternative of the pattern is lazy, and ends before the blanks that precede a comma or
-- the end. It always matches, so the matcher never gives back what the first two parts took.
unfoldable pub bare_member : Text → Member × Text
unfolding until_comma rstrip
bare_member s = let (segment, rest) = until_comma s in (bare (rstrip is_space segment), rest)

-- `\s*(?:,|$)` behind a quoted tag; otherwise the matcher falls back to a bare tag.
unfoldable pub close_quoted : Text → Text → Text → Member × Text
unfolding bare_member
close_quoted s content [] = (quoted content, [])
close_quoted s content (c ∷ rest) = if nat_beq c b',' then (quoted content, rest) else bare_member s

unfoldable pub read_alternatives : Text → Member × Text
unfolding close_quoted until_quote lstrip
read_alternatives [] = (bare [], [])
read_alternatives (c ∷ s) =
    if nat_beq c b'"'
    then (elim (until_quote s) [
      | none ↦ bare_member (c ∷ s)
      | some (content, rest) ↦ close_quoted (c ∷ s) content (lstrip is_space rest)
    ])
    else bare_member (c ∷ s)

-- One match of `ENTITY_TAG` at the start of a text, and the text behind it.
unfoldable pub read_member : Text → Member × Text
unfolding read_alternatives drop_weak
read_member s = read_alternatives (drop_weak (lstrip is_space s))

-- The body of the loop of `parse`: `none` is the early return of `cls(any=True)`.
unfoldable pub add_member : Member → List Text → Option (List Text)
add_member (quoted tag) tags = some (tag ∷ tags)
add_member (bare tag) tags =
    if tag == codes "*" then none else if tag == [] then some tags else some (tag ∷ tags)

abbrev pub after_member : Option (List Text) → (List Text → EntityTags) → EntityTags
after_member none continue = record { tags = []; any = true }
after_member (some tags) continue = continue tags

-- `finditer`: each match takes at least one character, but the one at the end of the header, which
-- is empty and adds nothing. The fuel bounds the number of matches.
unfoldable pub read_members : ℕ → Text → List Text → EntityTags
read_members zero s tags = record { tags = tags; any = false }
read_members (suc fuel) [] tags = record { tags = tags; any = false }
read_members (suc fuel) (c ∷ s) tags =
    let (member, rest) = read_member (c ∷ s) in
    after_member (add_member member tags) (read_members fuel rest)

parse_text : Text → Option EntityTags
unfolding read_members read_member add_member strip
parse_text header =
    if strip is_space header == [] then none else some (read_members (length header) header [])

unfoldable pub parse : Option Text → Option EntityTags
unfolding parse_text
parse none = none
parse (some header) = parse_text header

unfoldable pub matches : EntityTags → Option Text → Bool
unfolding opaque_tag
matches e version = e.any || elim version [ none ↦ false | some v ↦ contains e.tags (opaque_tag v) ]

pub record Conditions : Type 0 where
  pub if_match : Option Text
  pub if_none_match : Option Text

abbrev pub holds : Option EntityTags → Option Text → Bool → Bool
holds none version missing = missing
holds (some e) version missing = matches e version

-- `false` is the 304 of a GET.
unfoldable pub check : Conditions → Option Text → Text → Outcome Bool
check c version method =
    if not (holds (parse c.if_match) version true)
    then err precondition_failed
    else if holds (parse c.if_none_match) version false
    then (if method == codes "GET" then ok false else err precondition_failed)
    else ok true
