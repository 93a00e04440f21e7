-- ===== src/Loader/Derive/Merge/Examples.antt =====
-- A derived chat workflow that renames the agent's prompts and adds a tool.
use ai_agent_go_service.Prelude.{String, refl, List, [], ◌∷◌}
use mathlib.Core.List.Memᴰ
use ai_agent_go_service.Json.{
  text, object, Fields, no_fields, field, get, get_text, get_bool, get_object, as_text, remove, set,
}
use ai_agent_go_service.Loader.Derive.{deep_merge}
use ai_agent_go_service.Loader.Derive.Merge.{
  merge_nodes, merge_connections, conn_key, touches_removed,
}
use ai_agent_go_service.Loader.Derive.Merge.Inherited.{OwnPrompt, merge_nodes-OwnPrompt}
use ai_agent_go_service.Loader.Derive.Merge.Connections.{Joins, merge_connections-Joins}

abbrev prompts : String → Fields
prompts who =
    field "systemMessageFixed" (text who)
      (field "systemMessageFlexible" (text "Be brief.") no_fields)

abbrev agent : String → Fields
agent who =
    field "id" (text "a")
      (field "type" (text "ai/agent") (field "config" (object (prompts who)) no_fields))

abbrev trigger : Fields
trigger = field "id" (text "t") (field "type" (text "trigger/nats") no_fields)

abbrev base : List Fields
base = trigger ∷ agent "You sell." ∷ []

abbrev overlay : List Fields
overlay = agent "You buy." ∷ []

abbrev merged : List Fields
merged = trigger ∷ agent "You buy." ∷ []

merge_nodes-OwnPrompt_example :
    OwnPrompt overlay "systemMessageFixed" (agent "You buy.")
    × OwnPrompt overlay "systemMessageFlexible" (agent "You buy.")
unfolding merge_nodes get deep_merge get_text get_bool get_object as_text remove set
merge_nodes-OwnPrompt_example =
    merge_nodes-OwnPrompt base overlay merged [] (agent "You buy.") (refl, (refl, tt))
      ((refl, (refl, (refl, tt))), tt) refl (Memᴰ.tail (Memᴰ.head refl)) refl

abbrev wire : Fields
wire =
    field "from" (object (field "node" (text "t") (field "port" (text "main") no_fields))) (
      field "to" (object (field "node" (text "a") (field "port" (text "main") no_fields)))
        no_fields)

abbrev wires : List Fields
wires = wire ∷ []

merge_connections-Joins_example : Joins merged [] wire
unfolding merge_connections get get_text get_object conn_key touches_removed
merge_connections-Joins_example =
    merge_connections-Joins wires wires merged wires [] wire refl (Memᴰ.head refl)
