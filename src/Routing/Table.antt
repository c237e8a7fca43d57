-- ===== src/Routing/Table.antt =====
-- The table of RFC 7644, section 3.2: for each shape of a path, the methods that it supports and
-- what each acts on, and how HTTP answers from it.
use scim2_server.Routing.{
  Operation, create, query, replace, patch, delete, search, search_with_body, bulk,
  service_provider_config, resource_types, resource_type, schemas, schema, Target, refuse,
}
use scim2_server.Base.{
  String, Bool, true, false, Option, none, some, List, [], ◌∷◌, map, if◌then◌else◌, ◌==◌, nat_eq,
  Text, codes, text_eq, option_text_eq, Outcome, ok,
}

abbrev pub Table : Type 0
Table = List (Text × Target)

abbrev pub on : String → Operation → Option Text → Option Text → Bool → Text × Target
on method operation endpoint resource_id me = (
  codes method,
  record { operation = operation; endpoint = endpoint; resource_id = resource_id; me = me },
)

abbrev pub me_table : Table
me_table =
    on "GET" query none none true
    ∷ on "PUT" replace none none true
    ∷ on "PATCH" patch none none true
    ∷ on "DELETE" delete none none true
    ∷ on "POST" create none none true
    ∷ []

abbrev pub resource_table : Text → Text → Table
resource_table endpoint id =
    on "GET" query (some endpoint) (some id) false
    ∷ on "PUT" replace (some endpoint) (some id) false
    ∷ on "PATCH" patch (some endpoint) (some id) false
    ∷ on "DELETE" delete (some endpoint) (some id) false
    ∷ []

unfoldable pub one_table : Text → Table
one_table a =
    if codes "ServiceProviderConfig" == a
    then on "GET" service_provider_config none none false ∷ []
    else if codes "ResourceTypes" == a
    then on "GET" resource_types none none false ∷ []
    else if codes "Schemas" == a
    then on "GET" schemas none none false ∷ []
    else if codes "Bulk" == a
    then on "POST" bulk none none false ∷ []
    else if codes "Me" == a
    then me_table
    else if codes ".search" == a
    then on "POST" search_with_body none none false ∷ []
    else on "GET" search (some a) none false ∷ on "POST" create (some a) none false ∷ []

unfoldable pub two_table : Text → Text → Table
two_table a b =
    if codes "ServiceProviderConfig" == a
    then []
    else if codes "ResourceTypes" == a
    then on "GET" resource_type none (some b) false ∷ []
    else if codes "Schemas" == a
    then on "GET" schema none (some b) false ∷ []
    else if codes "Bulk" == a
    then []
    else if codes "Me" == a
    then []
    else if codes ".search" == a
    then []
    else if codes ".search" == b
    then on "POST" search_with_body (some a) none false ∷ resource_table a b
    else resource_table a b

-- What each path supports.
unfoldable pub endpoint_table : List Text → Table
unfolding one_table two_table
endpoint_table [] = on "GET" search none none false ∷ []
endpoint_table (a ∷ []) = one_table a
endpoint_table (a ∷ b ∷ []) = two_table a b
endpoint_table (a ∷ b ∷ c ∷ rest) = []

-- The answer that HTTP wants: the target of the method, a 404 for a path with no methods, and
-- otherwise a 405 with the methods of the path.
abbrev pub choose : Text → Table → Outcome Target → Outcome Target
choose method [] other = other
choose method ((m, t) ∷ table) other = if m == method then ok t else choose method table other

abbrev pub methods : Table → List Text
methods table = map (λ p. p.0) table

unfoldable pub answer : Text → Table → Outcome Target
answer method table = choose method table (refuse (methods table))
