-- ===== src/Memory/Equal/Used.antt =====
-- The index of equal values over the whole life of an `InMemoryStorage`.
use scim2_server.Base.Dict
use scim2_server.Base.Dict.{Dict, get-put, get-pop}
use scim2_server.Models.{Resource}
use scim2_server.Memory.{Key, key_eq, Attributes, Storage}
use scim2_server.Memory.Store.{missing_eq, pop_in, remove, store}
use scim2_server.Memory.Found.{store-keeps, placed}
use scim2_server.Memory.Store.{values_of, tick}
use scim2_server.Base.{refl, sym, subst, nat_eq, Text, text_eq, option_text_eq, Eq}
use scim2_server.Memory.Equal.Kept.{
  IsIndexed, Apart, put_in-Apart, pop_in-Apart, remove-IsIndexed, store-IsIndexed,
}
use scim2_server.Memory.Keeps.{IsKept}
use scim2_server.Memory.Valid.{empty}

module _ {B V R : Type 0} ⦃eb : Eq B⦄ ⦃ev : Eq V⦄ (a : Attributes B V R) where
  -- The index of equal values is right, and each type holds an identifier once.
  pub record IsSearchable (s : Storage B V) : Type 0 where
    pub described : IsIndexed a s
    pub apart : Apart s.resources

  pub empty-IsSearchable : IsSearchable empty
  unfolding Dict.get
  empty-IsSearchable = record {
    described = record { listed = λ n b v id. refl; paired = λ n b v id. refl };
    apart = λ n. tt;
  }

  tick-IsSearchable : (s : Storage B V) → IsSearchable s → IsSearchable (tick s)
  tick-IsSearchable s h = record {
    described = record { listed = h.described.listed; paired = h.described.paired };
    apart = h.apart;
  }

  remove-IsSearchable : (key : Key) (s : Storage B V) → IsSearchable s → IsSearchable (remove key s)
  unfolding remove
  remove-IsSearchable key s h = record {
    described = remove-IsIndexed a key s h.described;
    apart = pop_in-Apart s.resources key.0 key.1 h.apart;
  }

  placed-Apart :
      (key : Key) (r : Resource) (vs : Dict Text V) (s : Storage B V)
      → Apart s.resources
      → Apart (placed a key r vs s).resources
  unfolding remove
  placed-Apart key r vs s h =
      put_in-Apart (pop_in s.resources key.0 key.1) key.0 key.1 r
        (pop_in-Apart s.resources key.0 key.1 h)

  store-IsSearchable :
      (key : Key) (r : Resource) (vs : Dict Text V) (s : Storage B V)
      → IsSearchable s
      → IsSearchable (store a key r vs s)
  store-IsSearchable key r vs s h = record {
    described = store-IsIndexed a key r vs s h.described;
    apart = subst Apart (sym (store-keeps a key r vs s).0) (placed-Apart key r vs s h.apart);
  }

  pub IsSearchable-IsKept : IsKept a IsSearchable
  IsSearchable-IsKept = record {
    ticking = tick-IsSearchable;
    storing = λ key r s _ h. store-IsSearchable key r (values_of a r) s h;
    removing = remove-IsSearchable;
  }
