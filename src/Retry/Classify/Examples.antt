-- ===== src/Retry/Classify/Examples.antt =====
-- What the classifier reads of a concrete error.
use ai_agent_go_service.Prelude.{◌≡◌, refl, true, some}
use ai_agent_go_service.Retry.Types.{Failure, tool_error, canceled}
use ai_agent_go_service.Retry.Classify.{as_tool_error}

abbrev marked : Failure
marked = tool_error "stream-already-emitted" true canceled

reads_marked : as_tool_error marked ≡ some ("stream-already-emitted", true)
unfolding as_tool_error
reads_marked = refl
