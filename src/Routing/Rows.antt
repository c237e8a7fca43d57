-- ===== src/Routing/Rows.antt =====
-- The routes of routing.py with their patterns parsed, and the routes that have a given path.
use mathlib.Core.List.{append-nil, append_assoc}
use scim2_server.Routing.{
  Operation, create, query, replace, patch, delete, search, search_with_body, bulk,
  service_provider_config, resource_types, resource_type, schemas, schema, Route, Values, Target,
  routes, reserved_names, segments_of, match_pattern, match_part, match_parts, match_routes, refuse,
  target_of, no_values,
}
use scim2_server.Routing.Table.{Table, choose, methods}
use scim2_server.Base.{
  String, ◌≡◌, refl, ap, ◌∙◌, inl, inr, Bool, true, false, ◌||◌, Option, none, some, List, [], ◌∷◌,
  ◌++◌, map, arith, nat_beq, if◌then◌else◌, Option-cases, length, contains, ◌==◌, nat_eq, Text,
  codes, text_beq, text_eq, option_text_eq, ok,
}

-- The routes that have a path, in their order.
unfoldable pub candidates : List Route → List Text → Table
candidates [] segments = []
candidates (r ∷ rs) segments = elim (match_pattern r.pattern segments) [
  | none ↦ candidates rs segments
  | some values ↦ (r.method, target_of r values) ∷ candidates rs segments
]

pub match_routes-candidates :
    (rs : List Route) (method : Text) (segments allowed : List Text)
    → match_routes rs method segments allowed
      ≡ choose method
          (candidates rs segments)
          (refuse (allowed ++ methods (candidates rs segments)))
unfolding match_routes candidates
match_routes-candidates [] method segments allowed = rw append-nil
match_routes-candidates (r ∷ rs) method segments allowed =
    elim (Option-cases (match_pattern r.pattern segments)) [
      | inl missed ↦
          rw (missed, match_routes, candidates) (match_routes-candidates rs method segments allowed)
      | inr (values, found) ↦
          rw (found, match_routes, candidates)
            (ap (λ o. if r.method == method then ok (target_of r values) else o)
              (match_routes-candidates rs method segments (allowed ++ r.method ∷ [])
                ∙ rw append_assoc))
    ]

-- The parts of a pattern, parsed once. A comparison with a segment stays one test.
pub data Part : Type 0 where
  word : Text → Part
  endpoint_part id_part : Part

pub parse_part : Text → Part
parse_part p =
    if p == codes "{endpoint}"
    then endpoint_part
    else if p == codes "{resource_id}"
    then id_part
    else word p

unfoldable pub match_shape : List Part → List Text → Values → Option Values
match_shape [] [] vs = some vs
match_shape (word w ∷ ps) (s ∷ ss) vs = if w == s then match_shape ps ss vs else none
match_shape (endpoint_part ∷ ps) (s ∷ ss) vs =
    if contains reserved_names s || s == codes ".search"
    then none
    else match_shape ps ss (record vs { endpoint = some s })
match_shape (id_part ∷ ps) (s ∷ ss) vs = match_shape ps ss (record vs { resource_id = some s })
match_shape _ _ vs = none

pub match_parts-length :
    (ps ss : List Text) (vs : Values)
    → nat_beq (length ps) (length ss) ≡ false
    → match_parts ps ss vs ≡ none
unfolding match_parts
match_parts-length [] [] vs h = cc
match_parts-length [] (s ∷ ss) vs h = refl
match_parts-length (p ∷ ps) [] vs h = refl
match_parts-length (p ∷ ps) (s ∷ ss) vs h = elim (Option-cases (match_part p s vs)) [
  | inl e ↦ rw (e, match_parts)
  | inr (vs', e) ↦ rw (e, match_parts) (match_parts-length ps ss vs' (ground arith))
]

pub match_parts-shape :
    (ps ss : List Text) (vs : Values) → match_parts ps ss vs ≡ match_shape (map parse_part ps) ss vs
unfolding match_parts match_shape match_part parse_part
match_parts-shape [] [] vs = refl
match_parts-shape [] (s ∷ ss) vs = refl
match_parts-shape (p ∷ ps) [] vs = ground arith
match_parts-shape (p ∷ ps) (s ∷ ss) vs = ground (
  arith,
  match_parts-shape ps ss vs,
  match_parts-shape ps ss (record vs { endpoint = some s }),
  match_parts-shape ps ss (record vs { resource_id = some s }),
)

pub match_pattern-shape :
    (pattern : Text) (ss : List Text)
    → match_pattern pattern ss ≡ match_shape (map parse_part (segments_of pattern)) ss no_values
unfolding match_pattern
match_pattern-shape pattern ss = ground (
  arith,
  match_parts-length (segments_of pattern) ss no_values,
  match_parts-shape (segments_of pattern) ss no_values,
)

pub record Row : Type 0 where
  pub method : Text
  pub operation : Operation
  pub me : Bool
  pub parts : List Part

pub row_of : Route → Row
row_of r = record {
  method = r.method;
  operation = r.operation;
  me = r.pattern == codes "/Me";
  parts = map parse_part (segments_of r.pattern);
}

abbrev pub row_target : Row → Values → Target
row_target r vs = record {
  operation = r.operation;
  endpoint = vs.endpoint;
  resource_id = vs.resource_id;
  me = r.me;
}

-- One place for the rest of the table, whether the row has the path or not.
unfoldable pub add_row : Row → Option Values → Table → Table
add_row r none table = table
add_row r (some vs) table = (r.method, row_target r vs) ∷ table

unfoldable pub row_candidates : List Row → List Text → Table
unfolding add_row
row_candidates [] ss = []
row_candidates (r ∷ rs) ss = add_row r (match_shape r.parts ss no_values) (row_candidates rs ss)

pub candidates-rows :
    (rs : List Route) (ss : List Text) → candidates rs ss ≡ row_candidates (map row_of rs) ss
unfolding candidates row_candidates row_of
candidates-rows [] ss = refl
candidates-rows (r ∷ rs) ss =
    ground (arith, match_pattern-shape r.pattern ss, candidates-rows rs ss)

abbrev pub row : String → Operation → Bool → List Part → Row
row method operation me parts = record {
  method = codes method;
  operation = operation;
  me = me;
  parts = parts;
}

abbrev pub at : String → List Part
at w = word (codes w) ∷ []

abbrev pub rows : List Row
rows =
    row "GET" service_provider_config false (at "ServiceProviderConfig")
    ∷ row "GET" resource_types false (at "ResourceTypes")
    ∷ row "GET" resource_type false (word (codes "ResourceTypes") ∷ id_part ∷ [])
    ∷ row "GET" schemas false (at "Schemas")
    ∷ row "GET" schema false (word (codes "Schemas") ∷ id_part ∷ [])
    ∷ row "POST" bulk false (at "Bulk")
    ∷ row "GET" query true (at "Me")
    ∷ row "PUT" replace true (at "Me")
    ∷ row "PATCH" patch true (at "Me")
    ∷ row "DELETE" delete true (at "Me")
    ∷ row "POST" create true (at "Me")
    ∷ row "GET" search false []
    ∷ row "POST" search_with_body false (at ".search")
    ∷ row "POST" search_with_body false (endpoint_part ∷ word (codes ".search") ∷ [])
    ∷ row "GET" search false (endpoint_part ∷ [])
    ∷ row "POST" create false (endpoint_part ∷ [])
    ∷ row "GET" query false (endpoint_part ∷ id_part ∷ [])
    ∷ row "PUT" replace false (endpoint_part ∷ id_part ∷ [])
    ∷ row "PATCH" patch false (endpoint_part ∷ id_part ∷ [])
    ∷ row "DELETE" delete false (endpoint_part ∷ id_part ∷ [])
    ∷ []

pub routes-rows : map row_of routes ≡ rows
unfolding row_of parse_part segments_of text_beq
routes-rows = refl

pub candidates-shape : (ss : List Text) → candidates routes ss ≡ row_candidates rows ss
candidates-shape ss = candidates-rows routes ss ∙ ap (λ rs. row_candidates rs ss) routes-rows
