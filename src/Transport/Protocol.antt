-- ===== src/Transport/Protocol.antt =====
-- protocol.go: the events, the headers that carry them, and how the client reads them. A header
-- has one value; encoding/json and strconv are parameters.
use ai_agent_go_service.Prelude.{
  String, ◌==◌, Bool, ◌||◌, List, [], ◌∷◌, Result, ok, err, Option, some, none, if◌then◌else◌,
}
use ai_agent_go_service.Prelude.Int.{ℤ}

abbrev pub Header : Type 0
Header = List (String × String)

-- Header.Get and Header.Set
unfoldable pub get_header : String → Header → String
get_header k [] = ""
get_header k ((l, v) ∷ h) = if l == k then v else get_header k h

unfoldable pub set_header : String → String → Header → Header
set_header k v [] = (k, v) ∷ []
set_header k v ((l, u) ∷ h) =
    let rest = set_header k v h in if l == k then (k, v) ∷ h else (l, u) ∷ rest

unfoldable pub set_headers : Header → Header → Header
set_headers [] h = h
set_headers ((k, v) ∷ kvs) h = set_headers kvs (set_header k v h)

abbrev pub hdr_stream_event : String
hdr_stream_event = "_Stream_Event"

abbrev pub hdr_stream_sequence : String
hdr_stream_sequence = "_Stream_Sequence"

abbrev pub hdr_stream_id : String
hdr_stream_id = "_Stream_Id"

abbrev pub hdr_stream_cancel_subject : String
hdr_stream_cancel_subject = "_Stream_Cancel_Subject"

abbrev pub hdr_stream_tool_result_prefix : String
hdr_stream_tool_result_prefix = "_Stream_Tool_Result_Prefix"

abbrev pub hdr_message_id : String
hdr_message_id = "_Message_Id"

abbrev pub hdr_status : String
hdr_status = "status"

pub record StreamEvent : Type 0 where
  pub type : String
  pub sequence : ℤ
  pub stream_id : String
  pub body : String
  pub header : Header

-- A nats.Msg on the reply inbox.
pub record Msg : Type 0 where
  pub subject : String
  pub header : Header
  pub body : String

-- StreamComplete and StreamError end a stream.
abbrev pub is_terminator : String → Bool
is_terminator type = type == "complete" || type == "error"

pub data ParseError : Type 0 where
  nil_msg missing_event bad_sequence : ParseError

numbered : Msg → Option ℤ → Result ParseError StreamEvent
numbered m none = err bad_sequence
numbered m (some seq) = ok (record {
  type = get_header hdr_stream_event m.header;
  sequence = seq;
  stream_id = get_header hdr_stream_id m.header;
  body = m.body;
  header = m.header;
})

-- `atoi` is strconv.Atoi.
unfoldable pub parse_stream_message :
    (String → Option ℤ) → Option Msg → Result ParseError StreamEvent
unfolding numbered
parse_stream_message atoi none = err nil_msg
parse_stream_message atoi (some m) =
    if get_header hdr_stream_event m.header == ""
    then err missing_event
    else numbered m (atoi (get_header hdr_stream_sequence m.header))
