-- ===== src/Transport/Client/Examples.antt =====
-- The second event arrives first and is dropped; a copy of the first one is dropped too.
use ai_agent_go_service.Prelude.{String, ◌==◌, false, List, [], ◌∷◌, Option, some, if◌then◌else◌}
use ai_agent_go_service.Prelude.Int.{ℤ, pos}
use ai_agent_go_service.Transport.Protocol.{Msg}
use ai_agent_go_service.Transport.Client.{
  new_subscription, Arrival, message_in, timed_out, arrivals,
}
use ai_agent_go_service.Transport.Client.Delivery.{IsNumbered, EndsLast, arrivals-ordered}

abbrev atoi : String → Option ℤ
atoi s = if s == "0" then some (pos 0) else some (pos 1)

abbrev msg : String → String → Msg
msg type seq = record {
  subject = "_INBOX.1";
  header = ("_Stream_Event", type) ∷ ("_Stream_Sequence", seq) ∷ [];
  body = "{}";
}

abbrev arrived : List (Arrival atoi)
arrived =
    message_in (msg "delta" "1") false
    ∷ message_in (msg "start" "0") false
    ∷ message_in (msg "start" "0") false
    ∷ timed_out "natsstream: timed out"
    ∷ []

arrivals-ordered_example :
    IsNumbered 0 (arrivals atoi new_subscription arrived).events
    × EndsLast (arrivals atoi new_subscription arrived).events
arrivals-ordered_example = arrivals-ordered atoi arrived
