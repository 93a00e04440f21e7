-- ===== src/Transport/RoundTrip/Examples.antt =====
-- A handler that is cancelled, and calls on after its end; numbers are printed in unary.
use ai_agent_go_service.Prelude.{
  ℕ, zero, suc, ◌≡◌, refl, ap, String, true, false, List, [], ◌∷◌, map, Option, some, none,
}
use ai_agent_go_service.Prelude.Int.{ℤ, pos}
use ai_agent_go_service.Transport.Protocol.{Msg}
use ai_agent_go_service.Transport.Server.{
  StreamSession, Call, send_event, complete_with, fail_with, cancel, start, calls,
}
use ai_agent_go_service.Transport.Client.{new_subscription, arrivals}
use ai_agent_go_service.Transport.Client.Reading.{seen, inbox}
use ai_agent_go_service.Transport.RoundTrip.{arrivals-calls}

abbrev itoa : ℕ → String
itoa zero = ""
itoa (suc n) = String.◌∷◌ "1" (itoa n)

abbrev size : String → ℕ
size String.[] = 0
size (String.◌∷◌ c s) = suc (size s)

abbrev atoi : String → Option ℤ
atoi s = some (pos (size s))

size-itoa : (n : ℕ) → size (itoa n) ≡ n
size-itoa zero = refl
size-itoa (suc n) = ap suc (size-itoa n)

abbrev no_error : Msg → Option String
no_error m = none

abbrev session : StreamSession
session = record {
  reply_inbox = "_INBOX.1";
  stream_id = "s1";
  cancel_subject = "svc_.stream_cancel.c1";
  base_path = "svc";
  seq = 0;
  closed = false;
  subscribed = true;
  cancelled = false;
  outbox = [];
}

abbrev handler : List (Call itoa no_error)
handler = send_event "delta" "hi" [] ∷ cancel ∷ complete_with "bye" ∷ fail_with "late" ∷ []

arrivals-calls_example :
    map seen
      (arrivals atoi new_subscription
        (inbox (calls itoa no_error (start itoa no_error session "{}").1 handler).outbox)).events
    ≡ ("start", "{}") ∷ ("delta", "hi") ∷ ("complete", "bye") ∷ []
arrivals-calls_example =
    arrivals-calls itoa no_error atoi session "{}" handler
      (λ n. ap (λ k. some (pos k)) (size-itoa n)) refl refl refl ((tt, tt), (tt, (tt, (tt, tt))))
      (refl, (tt, (tt, (tt, tt))))
