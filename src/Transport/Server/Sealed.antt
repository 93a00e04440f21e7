-- ===== src/Transport/Server/Sealed.antt =====
-- What a session puts on the wire.
use ai_agent_go_service.Prelude.{
  ℕ, suc, ◌+◌, String, ◌==◌, eq_iff, ◌≡◌, refl, sym, ◌∙◌, subst, true, false, List, [], ◌∷◌, ◌++◌,
  Option, length, length-append, All, eqb, if◌then◌else◌, Bool-cases, inl, inr, arith,
}
use ai_agent_go_service.Transport.Protocol.{
  Header, get_header, set_header, set_headers, hdr_stream_event, hdr_stream_sequence, Msg,
  is_terminator,
}
use ai_agent_go_service.Transport.Server.{
  StreamSession, own_header, message, first_headers, publish, terminate, start, send, complete,
  fail, on_cancel, Call, send_event, complete_with, fail_with, cancel, call, calls,
}

get_header-set_header :
    (k j v : String) (h : Header)
    → get_header j (set_header k v h) ≡ (if k == j then v else get_header j h)
unfolding get_header set_header
get_header-set_header k j v [] = refl
get_header-set_header k j v ((l, u) ∷ h) =
    ground (arith, eq_iff k j, eq_iff l k, eq_iff l j, get_header-set_header k j v h)

-- The event brings no header of this name.
abbrev pub Lacks : String → Header → Type 0
Lacks j [] = Unit
Lacks j ((k, v) ∷ h) = ((k == j) ≡ false) × Lacks j h

get_header-set_headers :
    (j : String) (kvs h : Header) → Lacks j kvs → get_header j (set_headers kvs h) ≡ get_header j h
unfolding set_headers
get_header-set_headers j [] h l = refl
get_header-set_headers j ((k, v) ∷ kvs) h (n, l) =
    ground (arith, get_header-set_headers j kvs (set_header k v h) l, get_header-set_header k j v h)

abbrev pub sequence_of : Msg → String
sequence_of m = get_header hdr_stream_sequence m.header

abbrev pub type_of : Msg → String
type_of m = get_header hdr_stream_event m.header

abbrev IsOpen : Msg → Type 0
IsOpen m = is_terminator (type_of m) ≡ false

module _ (itoa : ℕ → String) (publish_error : Msg → Option String) where
  own_header-sequence :
      (s : StreamSession) (type : String)
      → get_header hdr_stream_sequence (own_header itoa publish_error s type) ≡ itoa s.seq
  unfolding own_header first_headers get_header set_header
  own_header-sequence s type = elim (Bool-cases (eqb s.seq 0)) [ inl c ↦ rw (c) | inr c ↦ rw (c) ]

  own_header-type :
      (s : StreamSession) (type : String)
      → get_header hdr_stream_event (own_header itoa publish_error s type) ≡ type
  unfolding own_header first_headers get_header set_header
  own_header-type s type = elim (Bool-cases (eqb s.seq 0)) [ inl c ↦ rw (c) | inr c ↦ rw (c) ]

  message-sequence :
      (s : StreamSession) (type body : String) (header : Header)
      → Lacks hdr_stream_sequence header
      → sequence_of (message itoa publish_error s type body header) ≡ itoa s.seq
  unfolding message
  message-sequence s type body header l =
      get_header-set_headers hdr_stream_sequence header (own_header itoa publish_error s type) l
      ∙ own_header-sequence s type

  pub message-type :
      (s : StreamSession) (type body : String) (header : Header)
      → Lacks hdr_stream_event header
      → type_of (message itoa publish_error s type body header) ≡ type
  unfolding message
  message-type s type body header l =
      get_header-set_headers hdr_stream_event header (own_header itoa publish_error s type) l
      ∙ own_header-type s type

  -- The messages bear the numbers from i on.
  abbrev pub IsNumbered : ℕ → List Msg → Type 0
  IsNumbered i [] = Unit
  IsNumbered i (m ∷ ms) = (sequence_of m ≡ itoa i) × IsNumbered (suc i) ms

  IsNumbered-snoc :
      (i : ℕ) (ms : List Msg) (m : Msg)
      → IsNumbered i ms
      → sequence_of m ≡ itoa (i + length ms)
      → IsNumbered i (ms ++ m ∷ [])
  IsNumbered-snoc i [] m n h = (subst (λ k. sequence_of m ≡ itoa k) (omega arith) h, tt)
  IsNumbered-snoc i (d ∷ ms) m (h, n) k =
      (h, IsNumbered-snoc (suc i) ms m n (subst (λ j. sequence_of m ≡ itoa j) (omega arith) k))

  -- No message but the last ends the stream.
  abbrev pub EndsLast : List Msg → Type 0
  EndsLast [] = Unit
  EndsLast (m ∷ []) = Unit
  EndsLast (m ∷ ms) = IsOpen m × EndsLast ms

  All-snoc : (ms : List Msg) (m : Msg) → All IsOpen ms → IsOpen m → All IsOpen (ms ++ m ∷ [])
  All-snoc [] m a o = (o, tt)
  All-snoc (d ∷ ms) m (p, a) o = (p, All-snoc ms m a o)

  EndsLast-snoc : (ms : List Msg) (m : Msg) → All IsOpen ms → EndsLast (ms ++ m ∷ [])
  EndsLast-snoc [] m a = tt
  EndsLast-snoc (d ∷ []) m (p, a) = (p, tt)
  EndsLast-snoc (d ∷ c ∷ ms) m (p, a) = (p, EndsLast-snoc (c ∷ ms) m a)

  All-EndsLast : (ms : List Msg) → All IsOpen ms → EndsLast ms
  All-EndsLast [] a = tt
  All-EndsLast (m ∷ []) a = tt
  All-EndsLast (m ∷ d ∷ ms) (p, a) = (p, All-EndsLast (d ∷ ms) a)

  data State (s : StreamSession) : Type 0 where
    sealed : s.closed ≡ true → EndsLast s.outbox → State s
    running : s.closed ≡ false → All IsOpen s.outbox → State s

  State-EndsLast : (s : StreamSession) → State s → EndsLast s.outbox
  State-EndsLast s (sealed c e) = e
  State-EndsLast s (running c a) = All-EndsLast s.outbox a

  abbrev IsCounted : StreamSession → Type 0
  IsCounted s = (length s.outbox ≡ s.seq) × IsNumbered 0 s.outbox

  publish-IsCounted :
      (s : StreamSession) (type body : String) (header : Header)
      → Lacks hdr_stream_sequence header
      → IsCounted s
      → IsCounted (publish itoa publish_error s type body header).1
  unfolding publish
  publish-IsCounted s type body header l (c, n) =
      let m = message itoa publish_error s type body header in
      (
        omega (arith, c, length-append s.outbox (m ∷ [])),
        IsNumbered-snoc 0 s.outbox m n (
            subst (λ k. sequence_of m ≡ itoa k) (omega (arith, c))
              (message-sequence s type body header l)),
      )

  abbrev IsSession : StreamSession → Type 0
  IsSession s = IsCounted s × State s

  publish-IsSession :
      (s : StreamSession) (type body : String) (header : Header)
      → Lacks hdr_stream_sequence header
      → Lacks hdr_stream_event header
      → is_terminator type ≡ false
      → s.closed ≡ false
      → All IsOpen s.outbox
      → IsCounted s
      → IsSession (publish itoa publish_error s type body header).1
  unfolding publish
  publish-IsSession s type body header l e t c a i =
      let m = message itoa publish_error s type body header in
      let o = subst (λ x. is_terminator x ≡ false) (sym (message-type s type body header e)) t in
      (publish-IsCounted s type body header l i, running c (All-snoc s.outbox m a o))

  terminate-IsSession :
      (s : StreamSession) (type body : String) (header : Header)
      → Lacks hdr_stream_sequence header
      → IsSession s
      → IsSession (terminate itoa publish_error s type body header).1
  unfolding terminate publish
  terminate-IsSession s type body header l (i, sealed c e) = rw (terminate, c) (i, sealed refl e)
  terminate-IsSession s type body header l (i, running c a) =
      let s' : StreamSession = record s { closed = true; subscribed = false; cancelled = true } in
      let m = message itoa publish_error s' type body header in
      rw (terminate, c)
        (publish-IsCounted s' type body header l i, sealed refl (EndsLast-snoc s.outbox m a))

  -- The events of a handler name a type and leave the headers of the stream alone.
  abbrev pub IsPlain : Call itoa publish_error → Type 0
  IsPlain (send_event type body header) =
      Lacks hdr_stream_sequence header × Lacks hdr_stream_event header
  IsPlain _ = Unit

  send-IsSession :
      (s : StreamSession) (type body : String) (header : Header)
      → Lacks hdr_stream_sequence header
      → Lacks hdr_stream_event header
      → IsSession s
      → IsSession (send itoa publish_error s type body header).1
  unfolding send
  send-IsSession s type body header l e (i, sealed c d) = rw (send, c) (i, sealed refl d)
  send-IsSession s type body header l e (i, running c a) = elim (Bool-cases (is_terminator type)) [
    | inl t ↦
        (let e' : send itoa publish_error s type body header
              ≡ terminate itoa publish_error s type body header =
            ground arith in
          subst (λ r. IsSession r.1) (sym e')
            (terminate-IsSession s type body header l (i, running c a)))
    | inr t ↦
        (let e' : send itoa publish_error s type body header
              ≡ publish itoa publish_error s type body header =
            ground arith in
          subst (λ r. IsSession r.1) (sym e') (publish-IsSession s type body header l e t c a i))
  ]

  cancel-IsSession : (s : StreamSession) → IsSession s → IsSession (on_cancel itoa publish_error s)
  unfolding on_cancel
  cancel-IsSession s (i, sealed c e) = elim (Bool-cases s.subscribed) [
    | inr b ↦ rw (on_cancel, b) (i, sealed c e)
    | inl b ↦ rw (on_cancel, b) (i, sealed c e)
  ]
  cancel-IsSession s (i, running c a) = elim (Bool-cases s.subscribed) [
    | inr b ↦ rw (on_cancel, b) (i, running c a)
    | inl b ↦ rw (on_cancel, b) (i, running c a)
  ]

  call-IsSession :
      (s : StreamSession) (c : Call itoa publish_error)
      → IsPlain c
      → IsSession s
      → IsSession (call itoa publish_error s c)
  unfolding call complete fail
  call-IsSession s (send_event type body header) (l, e) i = send-IsSession s type body header l e i
  call-IsSession s (complete_with body) p i = terminate-IsSession s "complete" body [] tt i
  call-IsSession s (fail_with body) p i = terminate-IsSession s "error" body [] tt i
  call-IsSession s cancel p i = cancel-IsSession s i

  calls-IsSession :
      (s : StreamSession) (cs : List (Call itoa publish_error))
      → All IsPlain cs
      → IsSession s
      → IsSession (calls itoa publish_error s cs)
  unfolding calls
  calls-IsSession s [] p i = i
  calls-IsSession s (c ∷ cs) (p, ps) i =
      calls-IsSession (call itoa publish_error s c) cs ps (call-IsSession s c p i)

  -- After Start, whatever a handler calls in whatever order, and whenever the client cancels, the
  -- messages of a session are numbered 0, 1, 2 and so on, and none follows a terminator, if the
  -- events do not overwrite the headers of the stream.
  pub calls-ordered :
      (s : StreamSession) (payload : String) (cs : List (Call itoa publish_error))
      → s.outbox ≡ []
      → s.seq ≡ 0
      → s.closed ≡ false
      → All IsPlain cs
      → IsNumbered 0 (calls itoa publish_error (start itoa publish_error s payload).1 cs).outbox
        × EndsLast (calls itoa publish_error (start itoa publish_error s payload).1 cs).outbox
  unfolding start
  calls-ordered s payload cs o q c p =
      let first =
        publish-IsSession s "start" payload [] tt tt refl c (subst (λ ms. All IsOpen ms) (sym o) tt)
          (ground arith, subst (λ ms. IsNumbered 0 ms) (sym o) tt) in
      let ((n, m), st) = calls-IsSession (start itoa publish_error s payload).1 cs p first in
      (m, State-EndsLast (calls itoa publish_error (start itoa publish_error s payload).1 cs) st)
