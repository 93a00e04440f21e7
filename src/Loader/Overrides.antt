-- ===== src/Loader/Overrides.antt =====
-- overrides.go: texts of the prompt store in place of those of a node's configuration. The decoding
-- and encoding of JSON, the factories, the templates and the store are a record of the caller.
use ai_agent_go_service.Prelude.{
  String, ◌==◌, Bool, true, false, List, [], ◌∷◌, Option, some, none, if◌then◌else◌, Result, ok,
  err,
}
use ai_agent_go_service.Json.{Value, text, Fields, no_fields, set}
use ai_agent_go_service.Loader.Env.{Env, ResolveError, resolve}
use ai_agent_go_service.Loader.Nodes.{Node}
use ai_agent_go_service.Loader.Envelope.{RawNode}

pub record Services : Type 0 where
  pub env : Env
  pub has_prompts : Bool
  pub latest : String → String → String → Result String (Option String)
  pub is_template : String → Option String
  pub decode_fields : String → Option Fields
  pub encode_fields : Fields → Option String
  pub registry : String → Option (String → Result String Node)

module _ (services : Services) (workflow : String) where
  open services use {env, has_prompts, latest, is_template, decode_fields, encode_fields, registry}

  valid_text : String → Option String → Option String
  valid_text s (some e) = none
  valid_text s none = some s

  text_without_errors : Value × List ResolveError → Option String
  unfolding valid_text
  text_without_errors (text s, []) = valid_text s (is_template s)
  text_without_errors (v, errs) = none

  -- The text that the store has for a field, if it can be used.
  usable : Result String (Option String) → Option String
  unfolding text_without_errors
  usable (ok (some content)) = text_without_errors (resolve env (text content))
  usable _ = none

  override_field : String → Option String → Fields × Bool → Fields × Bool
  override_field name none found = found
  override_field name (some s) (cfg, changed) = (set name (text s) cfg, true)

  override_fields : String → List String → Fields × Bool → Fields × Bool
  unfolding usable override_field
  override_fields id [] found = found
  override_fields id (name ∷ names) found =
      override_fields id names (override_field name (usable (latest workflow id name)) found)

  rebuilt : Option (String → Result String Node) → Option String → Node → Node
  rebuilt (some make) (some patched) instance' = elim (make patched) [
    | ok n ↦ n
    | err e ↦ instance'
  ]
  rebuilt _ _ instance' = instance'

  patched_instance : String → Fields × Bool → Node → Node
  unfolding rebuilt
  patched_instance type (cfg, false) instance' = instance'
  patched_instance type (cfg, true) instance' =
      rebuilt (registry type) (encode_fields cfg) instance'

  with_config : RawNode → Option Fields → Node → Node
  unfolding override_fields patched_instance
  with_config raw none instance' = instance'
  with_config raw (some cfg) instance' =
      patched_instance raw.type
        (override_fields raw.id instance'.spec.overridable_fields (cfg, false)) instance'

  -- Every failure falls back to the original instance.
  unfoldable pub apply_overrides : RawNode → Node → Node
  unfolding with_config
  apply_overrides raw instance' =
      let config = if raw.config == "" then some no_fields else decode_fields raw.config in
      let patched = with_config raw config instance' in
      elim instance'.spec.overridable_fields [
        | [] ↦ instance'
        | f ∷ fs ↦ if has_prompts then patched else instance'
      ]
