-- ===== src/Agent/Types.antt =====
-- The values of pkg/workflow/node that the agent's loop handles: messages, the events of a model,
-- and the events that the client receives. What the source marshals as JSON is kept as data.
use ai_agent_go_service.Prelude.{ℕ, String, Bool, List}
use ai_agent_go_service.Retry.Types.{Failure}

-- The results that the loop itself writes in place of a tool's output.
pub data ToolPayload : Type 0 where
  output : String → ToolPayload
  no_output : ToolPayload
  unknown_tool : String → ToolPayload
  retry_cap_exceeded : String → ℕ → ℕ → ToolPayload
  policy_deny : Failure → List String → ℕ → ToolPayload
  failed : Failure → String → ℕ → ToolPayload

-- BlockType tells which fields of a ContentBlock are set.
pub data ContentBlock : Type 0 where
  text : String → ContentBlock
  image document : String → String → List ℕ → ContentBlock
  tool_use : String → String → String → ContentBlock
  tool_result : String → ToolPayload → Bool → ContentBlock

pub data MessageRole : Type 0 where
  user assistant system : MessageRole

pub record Message : Type 0 where
  pub role : MessageRole
  pub content : List ContentBlock

pub record LlmToolUse : Type 0 where
  pub id : String
  pub name : String
  pub input : String

-- The errors of a stream travel apart, as signals; the other kinds are not read by the loop.
pub data LlmEvent : Type 0 where
  reasoning_delta text_delta : String → LlmEvent
  tool_use_stop : LlmToolUse → LlmEvent
  message_stop : String → LlmEvent
  other_kind : LlmEvent

-- The reasons with which the loop itself ends a turn, besides the errors of others.
pub data Cause : Type 0 where
  caused : Failure → Cause
  max_iterations : ℕ → Cause
  no_tool_results : Cause

pub data StreamEvent : Type 0 where
  thought delta : String → StreamEvent
  tool_call : LlmToolUse → StreamEvent
  tool_output : String → ToolPayload → Bool → StreamEvent
  attachment : String → String → StreamEvent
  complete : String → String → StreamEvent
  stream_error : String → Cause → StreamEvent

-- A user/assistant pair stored in memory.
pub record Turn : Type 0 where
  pub asked : Message
  pub answer : Message
