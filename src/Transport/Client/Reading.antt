-- ===== src/Transport/Client/Reading.antt =====
-- What a client reads of a whole stream that arrives in order.
use ai_agent_go_service.Prelude.{
  ℕ, suc, ◌+◌, String, ◌==◌, ◌≡◌, refl, sym, ap, subst, ◌∙◌, Bool, true, false, List, [], ◌∷◌, ◌++◌,
  map, Option, some, All, arith, ok,
}
use mathlib.Core.List.{append-nil, append_assoc}
use ai_agent_go_service.Prelude.Int.{ℤ, pos, eqb_ℤ}
use ai_agent_go_service.Transport.Protocol.{
  get_header, hdr_stream_id, StreamEvent, Msg, is_terminator, parse_stream_message,
}
use ai_agent_go_service.Transport.Server.Sealed.{sequence_of, type_of, IsNumbered, EndsLast}
use ai_agent_go_service.Transport.Server.Script.{shown}
use ai_agent_go_service.Transport.Client.{
  StreamSubscription, close_internal, Arrival, message_in, on_message, arrive, arrivals, accept,
  announce, deliver, offer, take_next,
}

abbrev pub seen : StreamEvent → String × String
seen e = (e.type, e.body)

-- The messages arrive as they were published, and the client has room for each.
abbrev pub inbox : {atoi : String → Option ℤ} → List Msg → List (Arrival atoi)
inbox = map (λ m. message_in m true)

abbrev pub IsNamed : Msg → Type 0
IsNamed m = (type_of m == "") ≡ false

event_of : ℕ → Msg → StreamEvent
event_of i m = record {
  type = type_of m;
  sequence = pos i;
  stream_id = get_header hdr_stream_id m.header;
  body = m.body;
  header = m.header;
}

-- A subscription that held some events and took the event i.
record Takes (i : ℕ) (m : Msg) (es : List StreamEvent) (s' : StreamSubscription) : Type 0 where
  holds : map seen s'.events ≡ map seen es ++ shown m ∷ []
  next : s'.next_seq ≡ suc i
  ends : s'.done ≡ is_terminator (type_of m)

map-snoc :
    (es : List StreamEvent) (e : StreamEvent) → map seen (es ++ e ∷ []) ≡ map seen es ++ seen e ∷ []
map-snoc [] e = refl
map-snoc (d ∷ es) e = ap (◌∷◌ (seen d)) (map-snoc es e)

deliver-Takes :
    (b : Bool) (i : ℕ) (m : Msg) (s : StreamSubscription)
    → is_terminator (type_of m) ≡ b
    → s.next_seq ≡ suc i
    → s.done ≡ false
    → Takes i m s.events (deliver b (event_of i m) s)
unfolding deliver close_internal event_of
deliver-Takes true i m s t n d = record {
  holds = map-snoc s.events (event_of i m);
  next = n;
  ends = sym t;
}
deliver-Takes false i m s t n d = record {
  holds = map-snoc s.events (event_of i m);
  next = n;
  ends = d ∙ sym t;
}

announced-Takes :
    (z : Bool) (i : ℕ) (m : Msg) (s : StreamSubscription)
    → s.next_seq ≡ suc i
    → s.done ≡ false
    → Takes i m s.events (offer false true (event_of i m) (announce z m s))
unfolding offer announce event_of
announced-Takes true i m s n d =
    deliver-Takes (is_terminator (type_of m)) i m (announce true m s) refl n d
announced-Takes false i m s n d = deliver-Takes (is_terminator (type_of m)) i m s refl n d

module _ (atoi : String → Option ℤ) where
  parses :
      (i : ℕ) (m : Msg)
      → IsNamed m
      → atoi (sequence_of m) ≡ some (pos i)
      → parse_stream_message atoi (some m) ≡ ok (event_of i m)
  unfolding parse_stream_message event_of
  parses i m named numbered = ground (arith, named, numbered)

  arrive-Takes :
      (i : ℕ) (m : Msg) (s : StreamSubscription)
      → IsNamed m
      → atoi (sequence_of m) ≡ some (pos i)
      → s.next_seq ≡ i
      → s.done ≡ false
      → Takes i m s.events (arrive atoi s (message_in m true))
  unfolding arrive on_message accept take_next event_of
  arrive-Takes i m s named numbered n d =
      let z = eqb_ℤ (pos i) (pos 0) in
      let s' : StreamSubscription = record s { next_seq = s.next_seq + 1 } in
      let at : eqb_ℤ (pos i) (pos s.next_seq) ≡ true = ground (arith, n) in
      subst (λ r. Takes i m s.events (accept true m s r)) (sym (parses i m named numbered))
        (subst (λ b. Takes i m s.events (take_next b true (event_of i m) m s)) (sym at)
          (subst (λ x. Takes i m s.events (offer x true (event_of i m) (announce z m s'))) (sym d)
            (announced-Takes z i m s' (omega (arith, n)) d)))

  module _ (itoa : ℕ → String) (publish_error : Msg → Option String)
      (reads : (n : ℕ) → atoi (itoa n) ≡ some (pos n)) where
    -- The client holds all messages of a stream that ends with its last one.
    pub arrivals-inbox :
        (i : ℕ) (ms : List Msg) (s : StreamSubscription)
        → IsNumbered itoa publish_error i ms
        → EndsLast itoa publish_error ms
        → All IsNamed ms
        → s.next_seq ≡ i
        → s.done ≡ false
        → map seen (arrivals atoi s (inbox ms)).events ≡ map seen s.events ++ map shown ms
    unfolding arrivals
    arrivals-inbox i [] s n e a q d = sym (append-nil (map seen s.events))
    arrivals-inbox i (m ∷ []) s (k, n) e (named, a) q d =
        (arrive-Takes i m s named (ap atoi k ∙ reads i) q d).holds
    arrivals-inbox i (m ∷ m' ∷ ms) s (k, n) (o, e) (named, a) q d =
        let t = arrive-Takes i m s named (ap atoi k ∙ reads i) q d in
        let s' = arrive atoi s (message_in m true) in
        arrivals-inbox (suc i) (m' ∷ ms) s' n e a t.next (t.ends ∙ o)
        ∙ ap (λ es. es ++ map shown (m' ∷ ms)) t.holds
        ∙ append_assoc (map seen s.events) (shown m ∷ []) (map shown (m' ∷ ms))
