-- ===== src/Agent/Run.antt =====
-- What the loop of loop.go works with: the world outside, the trace of its actions, and the
-- settings of an agent.
use ai_agent_go_service.Prelude.{ℕ, String, Bool, List, ◌∷◌, Option, Result}
use ai_agent_go_service.Prelude.Int.{ℤ}
use ai_agent_go_service.Retry.Types.{Policy, Class, Failure}
use ai_agent_go_service.Agent.Types.{Message, LlmEvent, StreamEvent, Turn}
use ai_agent_go_service.Agent.Stream.{Signals}
use ai_agent_go_service.Agent.Charts.{Patterns}

-- A call of the model, of a tool or of the client, an event to the client, or a turn to memory.
pub data Action : Type 0 where
  asked : List Message → Action
  invoked awaited : String → String → Action
  sent closed : StreamEvent → Action
  stored : Turn → Action

abbrev pub Trace : Type 0
Trace = List Action

-- The state of the world, and the trace with the latest action first.
pub record Run (W : Type 0) : Type 0 where
  pub world : W
  pub trace : Trace

abbrev pub act : {W : Type 0} → Action → Run W → Run W
act a r = record { world = r.world; trace = a ∷ r.trace }

pub record Tool : Type 0 where
  pub name : String
  pub retry_policy : Option Policy
  pub client_only : Bool
  pub terminates : Bool

pub record Settings : Type 0 where
  pub max_iterations : ℕ
  pub max_empty_answer_retries : ℕ
  pub max_tool_retries : ℕ
  pub surface_thoughts : Bool
  pub human_response_timeout_seconds : ℤ
  pub tools : List Tool
  pub llm_policy : Option Policy
  pub has_memory : Bool

-- What the loop calls: the clock, the random number and the `select` of the retry helper; the
-- context; memory and templates; the model, whose answer is what the `select` of an attempt meets;
-- the tools, with the attachments that they emit; the client's answers, and whether one says that
-- the question was skipped; the stream to the client, whose `Close` may fail; and `error_sent`, whether the `select` after the attempts sends the
-- error before it sees that the context is done.
pub record Outside (W : Type 0) : Type 0 where
  pub now : W → ℤ × W
  pub random : W → ℕ × W
  pub wait : ℤ → W → Bool × W
  pub ctx_error : W → Failure
  pub classify : Failure → Class
  pub ctx_done : W → Option Failure × W
  pub load_history : W → Result Failure (List Message) × W
  pub render : W → Result Failure String × W
  pub stream : Option ℤ → ℕ → List Message → W → Signals LlmEvent × W
  pub error_sent : W → Bool × W
  pub invoke :
      Option ℤ → ℕ → String → String → W → String × Option Failure × List (String × String) × W
  pub await_client : String → ℤ → W → Result Failure String × W
  pub is_skipped : String → Bool
  pub close_error : StreamEvent → W → Option Failure × W
  pub append_memory : Turn → W → Option Failure × W
  pub patterns : Patterns
  pub trim : String → String
  pub split_after_lines : String → List String
  pub ends_in_line_break : String → Bool
  pub first_runes : ℕ → String → Option String
  pub itoa : ℕ → String
