-- ===== src/Agent/Stream.antt =====
-- The function that loop.go hands to the retry helper for one call of the model: it forwards the
-- events of a stream until the stream closes or the context is done.
pub mod Laws
pub mod Examples
use ai_agent_go_service.Prelude.{String, Bool, true, false, List, [], ◌∷◌, Option, some, none}
use ai_agent_go_service.Retry.Types.{Failure, tool_error, stream_emitted, class_name}

or_last : Option Failure → Option Failure → Option Failure
or_last (some e) last = some e
or_last none last = last

-- An error after the first forwarded event is marked, so that it is terminal.
marked : Bool → Option Failure → Option Failure
marked true (some e) = some (tool_error (class_name stream_emitted) false e)
marked emitted e = e

module _ (E : Type 0) where
  -- What the `select` meets, in order: events, deferred errors, and one of the two ends.
  pub data Signals : Type 0 where
    stream_closed : Option Failure → Signals
    context_done : Failure → Signals
    llm_error : Failure → Signals → Signals
    llm_event : E → Signals → Signals

  pub attempt : Bool → Option Failure → Signals → List E × Option Failure
  unfolding or_last marked
  attempt emitted last (stream_closed e) = ([], marked emitted (or_last e last))
  attempt emitted last (context_done e) = ([], some e)
  attempt emitted last (llm_error e rest) = attempt emitted (some e) rest
  attempt emitted last (llm_event ev rest) = let (evs, r) = attempt true last rest in (ev ∷ evs, r)

  -- One attempt, from its start.
  unfoldable pub stream_attempt : Signals → List E × Option Failure
  unfolding attempt
  stream_attempt signals = attempt false none signals
