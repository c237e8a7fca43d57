-- ===== src/Handler/InMemory.antt =====
-- `InMemoryStorage` as the storage of a handler.
use scim2_server.Memory.{Attributes, Storage}
use scim2_server.Memory.Store.{get}
use scim2_server.Memory.Store as Store
use scim2_server.Memory.Valid.{IsValid, create-IsValid, update-IsValid, delete-IsValid}
use scim2_server.Memory.Search.{Query, search-IsValid}
use scim2_server.Memory.Search as Search
use scim2_server.Requests.{ScimRequest}
use scim2_server.Service.{ScimService, SearchRequest}
use scim2_server.Service.Search.{SearchPage}
use scim2_server.Handler.{ScimStorage}
use scim2_server.Handler.Requested.{handle}
use scim2_server.Handler.Preserves.{StorageKeeps}
use scim2_server.Handler.Kept.{handle-Keeps}
use scim2_server.Base.{ℕ, true, Option, nat_eq, Text, text_eq, option_text_eq, Eq}

-- What the storage is given: the identifiers and the clock, by the number of the write, and its
-- filters and pages.
pub record Surroundings (B V C : Type 0) : Type 0 where
  pub generate_id : ℕ → Text
  pub clock : ℕ → ℕ
  pub query : SearchRequest → Option C → Query B (SearchPage C)

module _ {B V R : Type 0} ⦃eb : Eq B⦄ ⦃ev : Eq V⦄ (a : Attributes B V R) where
  abbrev pub in_memory : {P C : Type 0} → Surroundings B V C → ScimStorage P C (Storage B V)
  in_memory w = record {
    get = λ rt id p s. (get s rt id, s);
    search = λ rts r c s. Search.search a rts (w.query r c) s;
    create = λ rt r s. Store.create a (w.generate_id s.versions) (w.clock s.versions) rt r s;
    update = λ rt r v s. Store.update a (w.clock s.versions) rt r v s;
    delete = λ rt id v s. Store.delete a rt id v s;
    supports_cursors = true;
    search_takes_position = true;
    get_takes_response_parameters = true;
  }

  in_memory-StorageKeeps :
      {P C : Type 0} (w : Surroundings B V C) → StorageKeeps (IsValid a) {P = P} (in_memory w)
  in_memory-StorageKeeps w = record {
    getting = λ rt id p s i. i;
    searching = λ rts r c s i. search-IsValid a rts (w.query r c) s i;
    creating =
        λ rt r s i. create-IsValid a (w.generate_id s.versions) (w.clock s.versions) rt r s i;
    updating = λ rt r v s i. update-IsValid a (w.clock s.versions) rt r v s i;
    deleting = λ rt id v s i. delete-IsValid a rt id v s i;
  }

  -- Any request to a handler over the storage in memory, a bulk request included, keeps the indexes of
  -- the unique values right, whether it is answered or refused.
  pub handle-IsValid :
      {P D J C : Type 0} (sv : ScimService P D J C) (w : Surroundings B V C) (r : ScimRequest)
      (s : Storage B V)
      → IsValid a s
      → IsValid a (handle sv (in_memory w) r s).1
  handle-IsValid sv w r = handle-Keeps sv (in_memory w) (IsValid a) (in_memory-StorageKeeps w) r
