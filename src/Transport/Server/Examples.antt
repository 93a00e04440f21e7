-- ===== src/Transport/Server/Examples.antt =====
-- A stream of one delta, and a second terminator that goes nowhere.
use ai_agent_go_service.Prelude.{
  ℕ, String, refl, zero, suc, true, false, List, [], ◌∷◌, Option, none,
}
use ai_agent_go_service.Transport.Protocol.{Msg}
use ai_agent_go_service.Transport.Server.{
  StreamSession, Call, send_event, complete_with, fail_with, start, calls,
}
use ai_agent_go_service.Transport.Server.Sealed.{IsNumbered, EndsLast, calls-ordered}

abbrev itoa : ℕ → String
itoa zero = "0"
itoa (suc zero) = "1"
itoa (suc (suc n)) = "2"

abbrev no_error : Msg → Option String
no_error m = none

abbrev session : StreamSession
session = record {
  reply_inbox = "_INBOX.1";
  stream_id = "s1";
  cancel_subject = "svc_.stream_cancel.c1";
  base_path = "svc";
  seq = 0;
  closed = false;
  subscribed = true;
  cancelled = false;
  outbox = [];
}

abbrev handler : List (Call itoa no_error)
handler = send_event "delta" "{}" [] ∷ complete_with "{}" ∷ fail_with "{}" ∷ []

calls-ordered_example :
    IsNumbered itoa no_error 0
      (calls itoa no_error (start itoa no_error session "{}").1 handler).outbox
    × EndsLast itoa no_error
        (calls itoa no_error (start itoa no_error session "{}").1 handler).outbox
calls-ordered_example =
    calls-ordered itoa no_error session "{}" handler refl refl refl ((tt, tt), (tt, (tt, tt)))
