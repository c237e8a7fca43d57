-- ===== src/AsyncHandler/Resources.antt =====
-- The coroutines of `AsyncScimHandler` on one resource.
use scim2_server.Models.{Resource, ResourceType}
use scim2_server.Conditions.{Conditions}
use scim2_server.Service.{ScimService}
use scim2_server.Service.Answers.{apply_replacement, apply_patch, check_deletion}
use scim2_server.AsyncHandler.{Call, Coroutine, done, ◌>>>=◌, awaited, asserting, ImmediateStorage}
use scim2_server.Base.{Option, none, some, nat_eq, Text, text_eq, option_text_eq, ok}

module _ {P D J C S : Type 0} (sv : ScimService P D J C) (storage : ImmediateStorage P C S) where
  -- Write the new state of a resource, or answer the current one when there is none.
  abbrev pub write_changed :
      ResourceType → Resource → Option Text → Option Resource → Coroutine P C Resource
  write_changed rt current version none = done (ok current)
  write_changed rt current version (some r) = awaited (Call.update rt r version)

  unfoldable pub replace_resource :
      ResourceType → Resource → Resource → Conditions → Coroutine P C Resource
  replace_resource rt current replacement conditions = asserting current.meta (λ m.
      done (apply_replacement sv current replacement conditions)
      >>>= write_changed rt current m.version)

  abbrev pub patch_current : ResourceType → D → Conditions → Resource → Coroutine P C Resource
  patch_current rt patch_op conditions current = asserting current.meta (λ m.
      done (apply_patch sv current patch_op conditions) >>>= write_changed rt current m.version)

  unfoldable pub patch_resource : ResourceType → Text → D → Conditions → Coroutine P C Resource
  patch_resource rt id patch_op conditions =
      awaited (Call.get rt id none) >>>= patch_current rt patch_op conditions

  abbrev pub delete_current : ResourceType → Text → Conditions → Resource → Coroutine P C (Unit {0})
  delete_current rt id conditions current = done (check_deletion sv current conditions) >>>= λ _.
      asserting current.meta (λ m. awaited (Call.delete rt id m.version))

  unfoldable pub delete_resource : ResourceType → Text → Conditions → Coroutine P C (Unit {0})
  delete_resource rt id conditions =
      awaited (Call.get rt id none) >>>= delete_current rt id conditions
