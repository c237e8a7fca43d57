-- ===== src/Conditions/Checks.antt =====
-- `check` on the headers of a client that sends back entity tags it received.
use scim2_server.Conditions.{
  drop_weak, drop_quotes, init, ends_quoted, opaque_tag, parse, matches, check,
}
use scim2_server.Conditions.Lists.{weak_tag, list_header, Unquoted, listed, parse-list_header}
use scim2_server.Base.{
  ◌≡◌, refl, ap, true, false, ◌||◌, Option, none, some, List, [], ◌∷◌, ◌++◌, arith, if◌then◌else◌,
  All, contains, ◌==◌, nat_eq, Text, codes, text_eq, option_text_eq, lstrip, strip_before, rstrip,
  strip, is_space, ok, err, precondition_failed,
}

rstrip-quote : (s : Text) → rstrip is_space (s ++ b'"' ∷ []) ≡ s ++ b'"' ∷ []
unfolding rstrip is_space
rstrip-quote [] = refl
rstrip-quote (c ∷ []) = refl
rstrip-quote (c ∷ d ∷ s) = ap (strip_before is_space c) (rstrip-quote (d ∷ s))

ends_quoted-quote : (s : Text) → ends_quoted (s ++ b'"' ∷ []) ≡ true
unfolding ends_quoted
ends_quoted-quote [] = refl
ends_quoted-quote (c ∷ []) = refl
ends_quoted-quote (c ∷ d ∷ s) = ends_quoted-quote (d ∷ s)

init-quote : (s : Text) → init (s ++ b'"' ∷ []) ≡ s
unfolding init
init-quote [] = refl
init-quote (c ∷ []) = refl
init-quote (c ∷ d ∷ s) = ap (λ (t : Text). c ∷ t) (init-quote (d ∷ s))

drop_quotes-quoted : (s : Text) → drop_quotes (b'"' ∷ (s ++ b'"' ∷ [])) ≡ s
unfolding drop_quotes
drop_quotes-quoted [] = refl
drop_quotes-quoted (c ∷ s) = rw (ends_quoted-quote (c ∷ s), init-quote (c ∷ s))

-- The opaque part of a weak entity tag is what stands between its quotes, whatever that is.
pub opaque_tag-weak_tag : (tag : Text) → opaque_tag (weak_tag tag) ≡ tag
unfolding opaque_tag strip lstrip is_space drop_weak
opaque_tag-weak_tag tag = rw (rstrip-quote (b'W' ∷ b'/' ∷ b'"' ∷ tag), drop_quotes-quoted tag)

contains-listed :
    (xs tags : List Text) (v : Text)
    → contains (listed xs tags) v ≡ (contains xs v || contains tags v)
contains-listed [] tags v = refl
contains-listed (x ∷ xs) tags v = ground (arith, contains-listed xs (x ∷ tags) v)

matches-listed :
    (xs : List Text) (v : Text)
    → matches (record { tags = listed xs []; any = false }) (some (weak_tag v)) ≡ contains xs v
unfolding matches
matches-listed xs v = rw opaque_tag-weak_tag (ground (arith, contains-listed xs [] v))

parse-none : parse none ≡ none
unfolding parse
parse-none = refl

-- If-Match with a list of weak tags that hold no quotes, and a resource with a weak version: the
-- request goes on if the version is one of these, and otherwise fails with a 412, whatever the method.
pub check-if_match :
    (x : Text) (xs : List Text) (v method : Text)
    → All Unquoted (x ∷ xs)
    → check
        (record { if_match = some (list_header (x ∷ xs)); if_none_match = none })
        (some (weak_tag v))
        method
      ≡ (if contains (x ∷ xs) v then ok true else err precondition_failed)
unfolding check
check-if_match x xs v method h =
    rw (parse-none, parse-list_header x xs h, matches-listed (x ∷ xs) v) (ground arith)

-- Without the version in If-Match, a request fails whatever its If-None-Match.
pub check-if_match_refused :
    (x : Text) (xs : List Text) (v method : Text) (if_none_match : Option Text)
    → All Unquoted (x ∷ xs)
    → contains (x ∷ xs) v ≡ false
    → check
        (record { if_match = some (list_header (x ∷ xs)); if_none_match = if_none_match })
        (some (weak_tag v))
        method
      ≡ err precondition_failed
unfolding check
check-if_match_refused x xs v method if_none_match h other =
    rw (parse-list_header x xs h, matches-listed (x ∷ xs) v, other) refl

-- If-None-Match with a list of weak tags that hold no quotes, and a weak version: a resource with one of these versions answers a 304 to a
-- GET and a 412 to any other method, and the request goes on for any other version.
pub check-if_none_match :
    (x : Text) (xs : List Text) (v method : Text)
    → All Unquoted (x ∷ xs)
    → check
        (record { if_match = none; if_none_match = some (list_header (x ∷ xs)) })
        (some (weak_tag v))
        method
      ≡ (if contains (x ∷ xs) v
          then (if method == codes "GET" then ok false else err precondition_failed)
          else ok true)
unfolding check
check-if_none_match x xs v method h =
    rw (parse-none, parse-list_header x xs h, matches-listed (x ∷ xs) v) (ground arith)
