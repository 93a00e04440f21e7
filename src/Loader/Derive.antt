-- ===== src/Loader/Derive.antt =====
-- derive.go of pkg/workflow/engine/loader: a workflow file that extends another one is merged
-- over it. Each map is its list of fields; a copy is the value itself, so aliasing is not modelled.
pub mod Merge
pub mod Laws
use ai_agent_go_service.Prelude.{Option, some, none, String}
use ai_agent_go_service.Json.{
  Value, null, array, object, Items, no_items, item, Fields, no_fields, field, get, set, remove,
}

unfoldable mutual
  pub copy_value : Value → Value
  copy_value (object m) = object (copy_fields m)
  copy_value (array a) = array (copy_items a)
  copy_value v = v

  pub copy_items : Items → Items
  copy_items no_items = no_items
  copy_items (item v a) = item (copy_value v) (copy_items a)

  pub copy_fields : Fields → Fields
  copy_fields no_fields = no_fields
  copy_fields (field k v m) = field k (copy_value v) (copy_fields m)

-- out[k] = v, or delete(out, k)
put : String → Option Value → Fields → Fields
put k none out = remove k out
put k (some v) out = set k v out

unfoldable mutual
  unfolding put

  -- The loop over the overlay, which changes `out`.
  pub overlay_fields : Fields → Fields → Fields
  overlay_fields out no_fields = out
  overlay_fields out (field k ov rest) =
      overlay_fields (put k (overlay_value (get k out) ov) out) rest

  -- Two objects merge; null deletes; any other value replaces.
  pub overlay_value : Option Value → Value → Option Value
  overlay_value old null = none
  overlay_value (some (object bm)) (object om) = some (object (overlay_fields (copy_fields bm) om))
  overlay_value old (object om) = some (copy_value (object om))
  overlay_value old ov = some (copy_value ov)

unfoldable pub deep_merge : Fields → Fields → Fields
unfolding overlay_fields copy_value
deep_merge base overlay = overlay_fields (copy_fields base) overlay
