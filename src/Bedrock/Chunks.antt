-- ===== src/Bedrock/Chunks.antt =====
-- stream.go: the chunks of a response stream, which the node's Stream and the updater's probe decode
-- with the same function. encoding/json is a parameter. The counters for the timing line, which the
-- probe leaves nil, are left out. A tool use is written here as it stands when its block stops, where
-- it is read; the events in between, which share it, are kept as `other_kind`.
pub mod Laws
use ai_agent_go_service.Prelude.{
  String, ◌==◌, Bool, List, [], ◌∷◌, Option, none, some, Result, ok, err, ◌>>=◌, if◌then◌else◌,
}
use Prim.Native.String.{◌++◌ as concat}
use ai_agent_go_service.Prelude.Int.{ℤ, eqb_ℤ}
use ai_agent_go_service.Agent.Types.{
  LlmToolUse, LlmEvent, text_delta, tool_use_stop, message_stop, other_kind,
}

pub record ContentBlockStart : Type 0 where
  pub index : ℤ
  pub type : String
  pub id : String
  pub name : String

pub record ContentBlockDelta : Type 0 where
  pub index : ℤ
  pub type : String
  pub text : String
  pub partial_json : String

pub data Chunk : Type 0 where
  block_start : ContentBlockStart → Chunk
  block_delta : ContentBlockDelta → Chunk
  block_stop : ℤ → Chunk
  message_delta : String → Chunk
  other_chunk : Chunk

-- The text of the field `type`, empty if it is no text; and a chunk as the struct of each type.
pub record Decoder : Type 0 where
  pub type_of : String → Result String String
  pub as_start : String → Result String ContentBlockStart
  pub as_delta : String → Result String ContentBlockDelta
  pub as_stop : String → Result String ℤ
  pub as_message_delta : String → Result String String

decode_as : Decoder → String → String → Result String Chunk
decode_as d raw t =
    if t == "content_block_start"
    then (d.as_start raw >>= λ v. ok (block_start v))
    else if t == "content_block_delta"
    then (d.as_delta raw >>= λ v. ok (block_delta v))
    else if t == "content_block_stop"
    then (d.as_stop raw >>= λ i. ok (block_stop i))
    else if t == "message_delta"
    then (d.as_message_delta raw >>= λ s. ok (message_delta s))
    else ok other_chunk

unfoldable pub decode_chunk : Decoder → String → Result String Chunk
unfolding decode_as
decode_chunk d raw = d.type_of raw >>= λ t. decode_as d raw t

-- The open tool uses by the index of their block, the latest first.
abbrev pub Accum : Type 0
Accum = List (ℤ × LlmToolUse)

unfoldable pub lookup : ℤ → Accum → Option LlmToolUse
lookup i [] = none
lookup i ((j, tu) ∷ rest) = if eqb_ℤ i j then some tu else lookup i rest

unfoldable pub delete : ℤ → Accum → Accum
delete i [] = []
delete i ((j, tu) ∷ rest) = if eqb_ℤ i j then delete i rest else (j, tu) ∷ delete i rest

abbrev pub grow : String → LlmToolUse → LlmToolUse
grow s tu = record tu { input = concat tu.input s }

add_input : ContentBlockDelta → Option LlmToolUse → Accum → Accum × Option LlmEvent
add_input v none accum = (accum, none)
add_input v (some tu) accum = ((v.index, grow v.partial_json tu) ∷ accum, some other_kind)

close_block : ℤ → Option LlmToolUse → Accum → Accum × Option LlmEvent
unfolding delete
close_block i none accum = (accum, none)
close_block i (some tu) accum = (delete i accum, some (tool_use_stop tu))

-- The tool uses after a chunk, and the event that it gives.
unfoldable pub apply_chunk : Chunk → Accum → Accum × Option LlmEvent
unfolding lookup add_input close_block
apply_chunk (block_start v) accum =
    if v.type == "tool_use"
    then ((v.index, record { id = v.id; name = v.name; input = "" }) ∷ accum, some other_kind)
    else (accum, none)
apply_chunk (block_delta v) accum =
    if v.type == "text_delta"
    then (accum, some (text_delta v.text))
    else if v.type == "input_json_delta"
    then add_input v (lookup v.index accum) accum
    else (accum, none)
apply_chunk (block_stop i) accum = close_block i (lookup i accum) accum
apply_chunk (message_delta s) accum =
    if s == "" then (accum, none) else (accum, some (message_stop s))
apply_chunk other_chunk accum = (accum, none)

unfoldable pub handle_anthropic_chunk :
    Decoder → String → Accum → Result String (Accum × Option LlmEvent)
unfolding decode_chunk apply_chunk
handle_anthropic_chunk d raw accum = decode_chunk d raw >>= λ c. ok (apply_chunk c accum)
