-- ===== src/Transport/Client.antt =====
-- client.go: the client's side of a stream. The channel of events is the list of those sent into
-- it; a reader that lets it fill up only delays them.
pub mod Delivery
pub mod Reading
pub mod Examples
use ai_agent_go_service.Prelude.{
  ℕ, ◌+◌, String, ◌==◌, Bool, true, false, not, List, [], ◌∷◌, ◌++◌, Option, some, none, Result, ok,
  err, eqb, if◌then◌else◌,
}
use ai_agent_go_service.Prelude.Int.{ℤ, pos, eqb_ℤ}
use ai_agent_go_service.Transport.Protocol.{
  get_header, hdr_stream_id, hdr_stream_cancel_subject, StreamEvent, Msg, is_terminator, ParseError,
  parse_stream_message,
}

pub record StreamSubscription : Type 0 where
  pub next_seq : ℕ
  pub events : List StreamEvent
  pub done : Bool
  pub cancel_subject : Option String
  pub stream_id : Option String
  pub error : Option String
  pub panicked : Bool

abbrev pub new_subscription : StreamSubscription
new_subscription = record {
  next_seq = 0;
  events = [];
  done = false;
  cancel_subject = none;
  stream_id = none;
  error = none;
  panicked = false;
}

-- closeInternal closes both channels once.
unfoldable pub close_internal : StreamSubscription → StreamSubscription
close_internal s = record s { done = true }

-- The ids that the first event announces.
announce : Bool → Msg → StreamSubscription → StreamSubscription
announce true m s = record s {
  cancel_subject = some (get_header hdr_stream_cancel_subject m.header);
  stream_id = some (get_header hdr_stream_id m.header);
}
announce false m s = s

-- The event is sent; a terminator closes the channels.
deliver : Bool → StreamEvent → StreamSubscription → StreamSubscription
unfolding close_internal
deliver true evt s = close_internal (record s { events = s.events ++ evt ∷ [] })
deliver false evt s = record s { events = s.events ++ evt ∷ [] }

-- The `select`, by whether the channels are closed. Once they are both of its cases can run: the
-- send panics, the other returns; `sends` says which one is taken.
offer : Bool → Bool → StreamEvent → StreamSubscription → StreamSubscription
unfolding deliver
offer true true evt s = record s { panicked = true }
offer true false evt s = s
offer false sends evt s = deliver (is_terminator evt.type) evt s

-- The next event is taken, any other dropped.
take_next : Bool → Bool → StreamEvent → Msg → StreamSubscription → StreamSubscription
unfolding offer announce
take_next false sends evt m s = s
take_next true sends evt m s =
    offer s.done sends evt
      (announce (eqb_ℤ evt.sequence (pos 0)) m (record s { next_seq = s.next_seq + 1 }))

accept : Bool → Msg → StreamSubscription → Result ParseError StreamEvent → StreamSubscription
unfolding take_next
accept sends m s (err e) = s
accept sends m s (ok evt) = take_next (eqb_ℤ evt.sequence (pos s.next_seq)) sends evt m s

module _ (atoi : String → Option ℤ) where
  unfoldable pub on_message : StreamSubscription → Msg → Bool → StreamSubscription
  unfolding accept
  on_message s m sends = accept sends m s (parse_stream_message atoi (some m))

  -- What the client meets: a message, the timeout, or its own Close.
  pub data Arrival : Type 0 where
    message_in : Msg → Bool → Arrival
    timed_out : String → Arrival
    closed_by_user : Arrival

  unfoldable pub arrive : StreamSubscription → Arrival → StreamSubscription
  unfolding on_message close_internal
  arrive s (message_in m sends) = on_message s m sends
  arrive s (timed_out e) = close_internal (record s { error = some e })
  arrive s closed_by_user = close_internal s

  unfoldable pub arrivals : StreamSubscription → List Arrival → StreamSubscription
  unfolding arrive
  arrivals s [] = s
  arrivals s (a ∷ as') = arrivals (arrive s a) as'

-- Cancel publishes on the subject that the first event announced.
unfoldable pub cancel_on : StreamSubscription → Option String
cancel_on s = elim s.cancel_subject [
  | none ↦ none
  | some subject ↦ if subject == "" then none else some subject
]
