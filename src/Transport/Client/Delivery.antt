-- ===== src/Transport/Client/Delivery.antt =====
-- What the client's channel holds, whatever arrives.
use ai_agent_go_service.Prelude.{
  ℕ, suc, ◌+◌, ◌≡◌, refl, sym, subst, Bool, true, false, List, [], ◌∷◌, ◌++◌, Option, some, length,
  length-append, All, Result-cases, inl, inr, arith, String,
}
use ai_agent_go_service.Prelude.Int.{ℤ, pos, eqb_ℤ, eqb_ℤ→eq}
use ai_agent_go_service.Transport.Protocol.{StreamEvent, Msg, is_terminator, parse_stream_message}
use ai_agent_go_service.Transport.Client.{
  StreamSubscription, new_subscription, close_internal, Arrival, message_in, timed_out,
  closed_by_user, arrive, arrivals, accept, announce, deliver, offer, take_next,
}

-- The events bear the numbers from i on.
abbrev pub IsNumbered : ℕ → List StreamEvent → Type 0
IsNumbered i [] = Unit
IsNumbered i (e ∷ es) = (e.sequence ≡ pos i) × IsNumbered (suc i) es

abbrev IsOpen : StreamEvent → Type 0
IsOpen e = is_terminator e.type ≡ false

-- No event but the last ends the stream.
abbrev pub EndsLast : List StreamEvent → Type 0
EndsLast [] = Unit
EndsLast (e ∷ []) = Unit
EndsLast (e ∷ es) = IsOpen e × EndsLast es

IsNumbered-snoc :
    (i : ℕ) (es : List StreamEvent) (e : StreamEvent)
    → IsNumbered i es
    → e.sequence ≡ pos (i + length es)
    → IsNumbered i (es ++ e ∷ [])
IsNumbered-snoc i [] e n h = (ground arith, tt)
IsNumbered-snoc i (d ∷ es) e (h, n) k = (h, IsNumbered-snoc (suc i) es e n (ground arith))

All-snoc :
    (es : List StreamEvent) (e : StreamEvent) → All IsOpen es → IsOpen e → All IsOpen (es ++ e ∷ [])
All-snoc [] e a o = (o, tt)
All-snoc (d ∷ es) e (p, a) o = (p, All-snoc es e a o)

EndsLast-snoc : (es : List StreamEvent) (e : StreamEvent) → All IsOpen es → EndsLast (es ++ e ∷ [])
EndsLast-snoc [] e a = tt
EndsLast-snoc (d ∷ []) e (p, a) = (p, tt)
EndsLast-snoc (d ∷ c ∷ es) e (p, a) = (p, EndsLast-snoc (c ∷ es) e a)

All-EndsLast : (es : List StreamEvent) → All IsOpen es → EndsLast es
All-EndsLast [] a = tt
All-EndsLast (e ∷ []) a = tt
All-EndsLast (e ∷ d ∷ es) (p, a) = (p, All-EndsLast (d ∷ es) a)

-- Closed, or waiting for the event whose number is the length of what was delivered.
data State (s : StreamSubscription) : Type 0 where
  ended : s.done ≡ true → EndsLast s.events → State s
  waiting : s.done ≡ false → length s.events ≡ s.next_seq → All IsOpen s.events → State s

State-EndsLast : (s : StreamSubscription) → State s → EndsLast s.events
State-EndsLast s (ended d e) = e
State-EndsLast s (waiting d l a) = All-EndsLast s.events a

abbrev IsInOrder : StreamSubscription → Type 0
IsInOrder s = IsNumbered 0 s.events × State s

deliver-IsInOrder :
    (t : Bool) (evt : StreamEvent) (s : StreamSubscription)
    → is_terminator evt.type ≡ t
    → IsNumbered 0 s.events
    → s.done ≡ false
    → evt.sequence ≡ pos (length s.events)
    → s.next_seq ≡ suc (length s.events)
    → All IsOpen s.events
    → IsInOrder (deliver t evt s)
unfolding deliver close_internal
deliver-IsInOrder true evt s t n d e q a =
    (IsNumbered-snoc 0 s.events evt n (ground arith), ended refl (EndsLast-snoc s.events evt a))
deliver-IsInOrder false evt s t n d e q a = (
  IsNumbered-snoc 0 s.events evt n (ground arith),
  waiting d (omega (arith, length-append s.events (evt ∷ []))) (All-snoc s.events evt a t),
)

offer-ended :
    (sends : Bool) (evt : StreamEvent) (s : StreamSubscription)
    → s.done ≡ true
    → IsNumbered 0 s.events
    → EndsLast s.events
    → IsInOrder (offer true sends evt s)
unfolding offer
offer-ended true evt s d n e = (n, ended d e)
offer-ended false evt s d n e = (n, ended d e)

-- The announcement leaves the channel alone.
ended_announced :
    (b sends : Bool) (evt : StreamEvent) (m : Msg) (s : StreamSubscription)
    → s.done ≡ true
    → IsNumbered 0 s.events
    → EndsLast s.events
    → IsInOrder (offer true sends evt (announce b m s))
unfolding announce
ended_announced true sends evt m s d n e = offer-ended sends evt (announce true m s) d n e
ended_announced false sends evt m s d n e = offer-ended sends evt s d n e

waiting_announced :
    (b sends : Bool) (evt : StreamEvent) (m : Msg) (s : StreamSubscription)
    → s.done ≡ false
    → IsNumbered 0 s.events
    → evt.sequence ≡ pos (length s.events)
    → s.next_seq ≡ suc (length s.events)
    → All IsOpen s.events
    → IsInOrder (offer false sends evt (announce b m s))
unfolding announce offer
waiting_announced true sends evt m s d n e q a =
    deliver-IsInOrder (is_terminator evt.type) evt (announce true m s) refl n d e q a
waiting_announced false sends evt m s d n e q a =
    deliver-IsInOrder (is_terminator evt.type) evt s refl n d e q a

take_next-IsInOrder :
    (b sends : Bool) (evt : StreamEvent) (m : Msg) (s : StreamSubscription)
    → eqb_ℤ evt.sequence (pos s.next_seq) ≡ b
    → IsInOrder s
    → IsInOrder (take_next b sends evt m s)
unfolding take_next
take_next-IsInOrder false sends evt m s q i = i
take_next-IsInOrder true sends evt m s q (n, ended d e) =
    let z = eqb_ℤ evt.sequence (pos 0) in
    let s' : StreamSubscription = record s { next_seq = s.next_seq + 1 } in
    subst (λ x. IsInOrder (offer x sends evt (announce z m s'))) (sym d)
      (ended_announced z sends evt m s' d n e)
take_next-IsInOrder true sends evt m s q (n, waiting d l a) =
    let z = eqb_ℤ evt.sequence (pos 0) in
    let s' : StreamSubscription = record s { next_seq = s.next_seq + 1 } in
    let at = eqb_ℤ→eq evt.sequence (pos s.next_seq) q in
    subst (λ x. IsInOrder (offer x sends evt (announce z m s'))) (sym d)
      (waiting_announced z sends evt m s' d n (ground arith) (omega (arith, l)) a)

module _ (atoi : String → Option ℤ) where
  arrive-IsInOrder :
      (s : StreamSubscription) (a : Arrival atoi) → IsInOrder s → IsInOrder (arrive atoi s a)
  unfolding arrive accept close_internal
  arrive-IsInOrder s (message_in m sends) i =
      elim (Result-cases (parse_stream_message atoi (some m))) [
        | inr (e, p) ↦ subst (λ r. IsInOrder (accept sends m s r)) (sym p) i
        | inl (evt, p) ↦
            subst (λ r. IsInOrder (accept sends m s r)) (sym p)
              (take_next-IsInOrder (eqb_ℤ evt.sequence (pos s.next_seq)) sends evt m s refl i)
      ]
  arrive-IsInOrder s (timed_out e) (n, st) = (n, ended refl (State-EndsLast s st))
  arrive-IsInOrder s closed_by_user (n, st) = (n, ended refl (State-EndsLast s st))

  arrivals-IsInOrder :
      (s : StreamSubscription) (as' : List (Arrival atoi))
      → IsInOrder s
      → IsInOrder (arrivals atoi s as')
  unfolding arrivals
  arrivals-IsInOrder s [] i = i
  arrivals-IsInOrder s (a ∷ as') i =
      arrivals-IsInOrder (arrive atoi s a) as' (arrive-IsInOrder s a i)

  -- Whatever messages arrive, in any order and any number of times, and whenever the stream times
  -- out or is closed, the events that a client reads are numbered 0, 1, 2 and so on without a gap
  -- or a repetition, and only the last of them can end the stream.
  pub arrivals-ordered :
      (as' : List (Arrival atoi))
      → IsNumbered 0 (arrivals atoi new_subscription as').events
        × EndsLast (arrivals atoi new_subscription as').events
  arrivals-ordered as' =
      let (n, st) = arrivals-IsInOrder new_subscription as' (tt, waiting refl refl tt) in
      (n, State-EndsLast (arrivals atoi new_subscription as') st)
