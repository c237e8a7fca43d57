-- ===== src/Memory/Positions.antt =====
-- The sort keys of a search and the JSON form of a cursor position: `_sort_key`, `_position`,
-- `_read_position`, `_encode` and `_decode` of memory.py.
use scim2_server.Models.{Resource}
use scim2_server.Memory.Paging.{Direction}
use scim2_server.Memory.Paging.Direction.{next, previous}
use scim2_server.Base.{
  ℕ, ◌≡◌, Exception, refl, sym, ◌∙◌, subst, ok-injective, ap, inl, inr, Bool, true, false, Option,
  none, some, [], if◌then◌else◌, Option-cases, Outcome-cases, ◌==◌, nat_eq, Text, text_eq,
  option_text_eq, codes, Outcome, ok, err, invalid_cursor, type_error, text_beq,
}

-- A JSON value, as Python holds it. A number is a code of it.
mutual
  pub data Json : Type 0 where
    null : Json
    boolean : Bool → Json
    number : ℕ → Json
    string : Text → Json
    array : Items → Json
    object : Members → Json

  pub data Items : Type 0 where
    nil : Items
    cons : Json → Items → Items

  pub data Members : Type 0 where
    end : Members
    member : Text → Json → Members → Members

-- The value under a key; none is a `KeyError`.
unfoldable pub member_of : Members → Text → Option Json
member_of end key = none
member_of (member k v rest) key =
    let later = member_of rest key in if k == key then some v else later

-- A sort value: a date, what JSON can hold, or another Python value. `D` is the type of dates.
pub data SortValue (D : Type 0) : Type 0 where
  date : D → SortValue D
  json : Json → SortValue D
  unsupported : SortValue D

-- `SortKey`: whether the value is missing, the value, and the identifier.
abbrev pub SortKey : Type 0 → Type 0
SortKey D = Bool × SortValue D × Text

-- A stored resource has an identifier, so the cast of `_sort_key` holds.
unfoldable pub sort_key : {D : Type 0} → (Resource → Option (SortValue D)) → Resource → SortKey D
sort_key sort_value r =
    let id = elim r.id as (λ x. Text) [ none ↦ [] | some i ↦ i ] in
    elim (sort_value r) [ none ↦ (true, json (string []), id) | some v ↦ (false, v, id) ]

-- What `datetime` computes: the text of a date, and the date of a text that has one.
pub record Dates (D : Type 0) : Type 0 where
  pub isoformat : D → Text
  pub fromisoformat : Text → Option D

pub record IsDates {D : Type 0} (dates : Dates D) : Type 0 where
  pub read : (d : D) → dates.fromisoformat (dates.isoformat d) ≡ some d

abbrev pub direction_text : Direction → Text
direction_text next = codes "next"
direction_text previous = codes "previous"

-- `direction not in ("next", "previous")` raises.
unfoldable pub read_direction : Json → Outcome Direction
read_direction (string t) =
    if t == codes "next"
    then ok next
    else if t == codes "previous"
    then ok previous
    else err invalid_cursor
read_direction _ = err invalid_cursor

module _ {D : Type 0} (dates : Dates D) where
  -- `_encode`
  unfoldable pub encode : SortValue D → Outcome Json
  encode (date d) = ok (object (member (codes "datetime") (string (dates.isoformat d)) end))
  encode (json (string t)) = ok (string t)
  encode (json (boolean b)) = ok (boolean b)
  encode (json (number n)) = ok (number n)
  encode _ = err type_error

  -- `datetime.fromisoformat(value["datetime"])`
  abbrev pub decode_date : Option Json → Outcome (SortValue D)
  decode_date (some (string t)) = elim (dates.fromisoformat t) [
    | none ↦ err invalid_cursor
    | some d ↦ ok (date d)
  ]
  decode_date _ = err invalid_cursor

  -- `_decode`
  unfoldable pub decode : Json → Outcome (SortValue D)
  unfolding member_of
  decode (object members) = decode_date (member_of members (codes "datetime"))
  decode value = ok (json value)

  abbrev pub position_of : Direction → Text → Json → Json
  position_of d identifier value = object (
      member (codes "d") (string (direction_text d))
        (member (codes "k") value (member (codes "i") (string identifier) end)))

  -- `_position`
  unfoldable pub position : Direction → SortKey D → Outcome Json
  unfolding encode
  position d (true, value, identifier) = ok (position_of d identifier null)
  position d (false, value, identifier) = elim (encode value) [
    | err e ↦ err e
    | ok encoded ↦ ok (position_of d identifier encoded)
  ]

  abbrev pub read_value : Json → Text → Outcome (SortKey D)
  read_value null identifier = ok (true, json (string []), identifier)
  read_value value identifier = elim (decode value) [
    | err e ↦ err e
    | ok v ↦ ok (false, v, identifier)
  ]

  abbrev pub read_fields : Option Json → Option Json → Option Json → Outcome (Direction × SortKey D)
  read_fields (some direction) (some value) (some (string identifier)) =
      elim (read_direction direction) [
        | err e ↦ err e
        | ok d ↦ elim (read_value value identifier) [ err e ↦ err e | ok key ↦ ok (d, key) ]
      ]
  read_fields _ _ _ = err invalid_cursor

  -- `_read_position`
  unfoldable pub read_position : Json → Outcome (Direction × SortKey D)
  unfolding read_direction decode member_of
  read_position (object members) =
      read_fields (member_of members (codes "d")) (member_of members (codes "k"))
        (member_of members (codes "i"))
  read_position _ = err invalid_cursor

  read-position_of :
      (d : Direction) (identifier : Text) (value : Json)
      → read_position (position_of d identifier value)
        ≡ elim (read_value value identifier) as (λ x. Outcome (Direction × SortKey D)) [
          | err e ↦ err e
          | ok key ↦ ok (d, key)
        ]
  unfolding read_position text_beq
  read-position_of next identifier value = refl
  read-position_of previous identifier value = refl

  -- What `_encode` gives is read back.
  read-encode :
      IsDates dates
      → (v : SortValue D) (identifier : Text) (j : Json) → encode v ≡ ok j
      → read_value j identifier ≡ ok (false, v, identifier)
  unfolding encode decode text_beq
  read-encode h v identifier j e = go v e
    where
      same :
          (v : SortValue D) (j' : Json)
          → encode v ≡ ok j
          → encode v ≡ ok j'
          → read_value j' identifier ≡ ok (false, v, identifier)
          → read_value j identifier ≡ ok (false, v, identifier)
      same v j' e e' r =
          subst (λ x. read_value x identifier ≡ ok (false, v, identifier))
            (ok-injective (sym e' ∙ e)) r

      go : (v : SortValue D) → encode v ≡ ok j → read_value j identifier ≡ ok (false, v, identifier)
      go (date d) e = same (date d) _ e refl (rw (h.read d) refl)
      go (json (boolean b)) e = same (json (boolean b)) _ e refl refl
      go (json (number n)) e = same (json (number n)) _ e refl refl
      go (json (string t)) e = same (json (string t)) _ e refl refl
      go (json null) e = cc
      go (json (array xs)) e = cc
      go (json (object xs)) e = cc
      go unsupported e = cc

  -- A key that `_sort_key` gives: a missing value is the empty string.
  abbrev pub IsSortKey : SortKey D → Type 0
  IsSortKey (missing, value, identifier) = missing ≡ true → value ≡ json (string [])

  pub sort_key-IsSortKey :
      (sort_value : Resource → Option (SortValue D)) (r : Resource)
      → IsSortKey (sort_key sort_value r)
  unfolding sort_key
  sort_key-IsSortKey sort_value r = elim (Option-cases (sort_value r)) [
    | inl missing ↦ rw (missing, sort_key) (λ e. refl)
    | inr (v, there) ↦ rw (there, sort_key) (λ e. cc)
  ]

  pub read-position :
      IsDates dates
      → (d : Direction) (key : SortKey D) (q : Json) → IsSortKey key
      → position d key ≡ ok q
      → read_position q ≡ ok (d, key)
  unfolding position
  read-position h d (true, value, identifier) q k e =
      subst (λ x. read_position x ≡ ok (d, (true, value, identifier))) (ok-injective e)
        (read-position_of d identifier null
          ∙ ap (λ v. ok (d, (true, v, identifier))) (sym (k refl)))
  read-position h d (false, value, identifier) q k e = elim (Outcome-cases (encode value)) [
    | inr (x, failed) ↦ absurd (refused x (rw (failed, position) at e))
    | inl (j, encoded) ↦
        subst (λ x. read_position x ≡ ok (d, (false, value, identifier)))
          (ok-injective (rw (encoded, position) at e))
          (read-position_of d identifier j ∙ rw (read-encode h value identifier j encoded) refl)
  ]
    where
      refused : (x : Exception) → err x ≡ ok q → ⊥
      refused x f = cc

  -- When `datetime` reads the text that it writes of a date: a position that is made of a resource,
  -- in either direction, is read as that direction and the sort key of the resource.
  pub read_position-position :
      IsDates dates
      → (sort_value : Resource → Option (SortValue D)) (r : Resource) (d : Direction) (q : Json)
      → position d (sort_key sort_value r) ≡ ok q
      → read_position q ≡ ok (d, sort_key sort_value r)
  read_position-position h sort_value r d q e =
      read-position h d (sort_key sort_value r) q (sort_key-IsSortKey sort_value r) e
