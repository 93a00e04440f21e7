-- ===== src/Transport/Server/Script.antt =====
-- What a session puts on the wire is what its handler means to send.
use ai_agent_go_service.Prelude.{
  ℕ, String, ◌≡◌, refl, sym, ap, subst, ◌∙◌, Bool, true, false, List, [], ◌∷◌, ◌++◌, map, Option,
  All, Bool-cases, inl, inr, arith,
}
use mathlib.Core.List.{append-nil}
use ai_agent_go_service.Transport.Protocol.{Header, hdr_stream_event, Msg, is_terminator}
use ai_agent_go_service.Transport.Server.{
  StreamSession, message, publish, terminate, send, start, complete, fail, on_cancel, Call,
  send_event, complete_with, fail_with, cancel, call, calls,
}
use ai_agent_go_service.Transport.Server.Sealed.{Lacks, type_of, IsPlain, message-type}

abbrev pub up_to : Bool → String × String → List (String × String) → List (String × String)
up_to true e es = e ∷ []
up_to false e es = e ∷ es

-- The events of a handler up to the first that ends the stream.
abbrev pub script :
    {itoa : ℕ → String} {publish_error : Msg → Option String}
    → List (Call itoa publish_error)
    → List (String × String)
script [] = []
script (send_event type body header ∷ cs) = up_to (is_terminator type) (type, body) (script cs)
script (complete_with payload ∷ cs) = ("complete", payload) ∷ []
script (fail_with payload ∷ cs) = ("error", payload) ∷ []
script (cancel ∷ cs) = script cs

-- The type and the body of a message.
abbrev pub shown : Msg → String × String
shown m = (type_of m, m.body)

module _ (itoa : ℕ → String) (publish_error : Msg → Option String) where
  -- A closed session stays so and sends no more.
  abbrev Silent : StreamSession → StreamSession → Type 0
  Silent s s' = (s'.outbox ≡ s.outbox) × (s'.closed ≡ true)

  call-Silent :
      (s : StreamSession) (c : Call itoa publish_error)
      → s.closed ≡ true
      → Silent s (call itoa publish_error s c)
  unfolding call send complete fail terminate on_cancel
  call-Silent s (send_event type body header) c = ground (arith, c)
  call-Silent s (complete_with payload) c = ground (arith, c)
  call-Silent s (fail_with payload) c = ground (arith, c)
  call-Silent s cancel c = ground (arith, c)

  calls-Silent :
      (s : StreamSession) (cs : List (Call itoa publish_error))
      → s.closed ≡ true
      → (calls itoa publish_error s cs).outbox ≡ s.outbox
  unfolding calls
  calls-Silent s [] c = refl
  calls-Silent s (d ∷ cs) c =
      let (same, still) = call-Silent s d c in
      calls-Silent (call itoa publish_error s d) cs still ∙ same

  map-snoc :
      (ms : List Msg) (m : Msg) (rest : List (String × String))
      → map shown (ms ++ m ∷ []) ++ rest ≡ map shown ms ++ shown m ∷ rest
  map-snoc [] m rest = refl
  map-snoc (d ∷ ms) m rest = ap (◌∷◌ (shown d)) (map-snoc ms m rest)

  -- One message more, of this type and body.
  abbrev Sends : StreamSession → String → String → StreamSession → Type 0
  Sends s type body s' = (m : Msg) × (s'.outbox ≡ s.outbox ++ m ∷ []) × (shown m ≡ (type, body))

  publish-Sends :
      (s : StreamSession) (type body : String) (header : Header)
      → Lacks hdr_stream_event header
      → Sends s type body (publish itoa publish_error s type body header).1
  unfolding publish message
  publish-Sends s type body header l = (
    message itoa publish_error s type body header,
    refl,
    ap (λ t. (t, body)) (message-type itoa publish_error s type body header l),
  )

  -- What is on the wire after one call, and what is still to come.
  abbrev Adds : StreamSession → List (String × String) → StreamSession → Type 0
  Adds s sent s' = map shown s'.outbox ≡ map shown s.outbox ++ sent

  Sends-Adds :
      (s s' u : StreamSession) (type body : String) (rest : List (String × String))
      → Sends s type body s'
      → Adds s' rest u
      → Adds s ((type, body) ∷ rest) u
  Sends-Adds s s' u type body rest (m, out, is) h =
      h
      ∙ ap (λ ms. map shown ms ++ rest) out
      ∙ map-snoc s.outbox m rest
      ∙ ap (λ p. map shown s.outbox ++ p ∷ rest) is

  -- A terminator is the last message.
  terminated-Adds :
      (s : StreamSession) (type body : String) (header : Header)
      (cs : List (Call itoa publish_error))
      → Lacks hdr_stream_event header
      → s.closed ≡ false
      → Adds s
          ((type, body) ∷ [])
          (calls itoa publish_error (terminate itoa publish_error s type body header).1 cs)
  unfolding terminate publish
  terminated-Adds s type body header cs l c =
      let s' : StreamSession = record s { closed = true; subscribed = false; cancelled = true } in
      let u = (publish itoa publish_error s' type body header).1 in
      let e : terminate itoa publish_error s type body header
          ≡ publish itoa publish_error s' type body header =
        ground (arith, c) in
      subst (λ r. Adds s ((type, body) ∷ []) (calls itoa publish_error r.1 cs)) (sym e)
        (Sends-Adds s u (calls itoa publish_error u cs) type body []
          (publish-Sends s' type body header l)
          (ap (map shown) (calls-Silent u cs refl) ∙ sym (append-nil (map shown u.outbox))))

  still :
      (s : StreamSession) (type body : String) (header : Header)
      → s.closed ≡ false
      → (publish itoa publish_error s type body header).1.closed ≡ false
  unfolding publish
  still s type body header c = c

  event-Adds :
      (s : StreamSession) (type body : String) (header : Header)
      (cs : List (Call itoa publish_error))
      → Lacks hdr_stream_event header
      → s.closed ≡ false
      → (b : Bool) → is_terminator type ≡ b
      → Adds
          (publish itoa publish_error s type body header).1
          (script cs)
          (calls itoa publish_error (publish itoa publish_error s type body header).1 cs)
      → Adds s
          (up_to b (type, body) (script cs))
          (calls itoa publish_error (send itoa publish_error s type body header).1 cs)
  unfolding send
  event-Adds s type body header cs l c true t rest =
      let e : send itoa publish_error s type body header
          ≡ terminate itoa publish_error s type body header =
        ground (arith, c, t) in
      subst (λ r. Adds s ((type, body) ∷ []) (calls itoa publish_error r.1 cs)) (sym e)
        (terminated-Adds s type body header cs l c)
  event-Adds s type body header cs l c false t rest =
      let u = (publish itoa publish_error s type body header).1 in
      let e : send itoa publish_error s type body header
          ≡ publish itoa publish_error s type body header =
        ground (arith, c, t) in
      subst (λ r. Adds s ((type, body) ∷ script cs) (calls itoa publish_error r.1 cs)) (sym e)
        (Sends-Adds s u (calls itoa publish_error u cs) type body (script cs)
          (publish-Sends s type body header l) rest)

  -- The messages of an open session are those that its handler means to send.
  pub calls-Adds :
      (s : StreamSession) (cs : List (Call itoa publish_error))
      → All (IsPlain itoa publish_error) cs
      → s.closed ≡ false
      → Adds s (script cs) (calls itoa publish_error s cs)
  unfolding calls call send complete fail on_cancel
  calls-Adds s [] p c = sym (append-nil (map shown s.outbox))
  calls-Adds s (send_event type body header ∷ cs) ((l, e), ps) c =
      event-Adds s type body header cs e c (is_terminator type) refl (
        calls-Adds (publish itoa publish_error s type body header).1 cs ps
          (still s type body header c))
  calls-Adds s (complete_with payload ∷ cs) (p, ps) c =
      terminated-Adds s "complete" payload [] cs tt c
  calls-Adds s (fail_with payload ∷ cs) (p, ps) c = terminated-Adds s "error" payload [] cs tt c
  calls-Adds s (cancel ∷ cs) (p, ps) c = elim (Bool-cases s.subscribed) [
    | inl b ↦
        (let e : on_cancel itoa publish_error s ≡ record s { cancelled = true } =
            ground (arith, b) in
          subst (λ r. Adds s (script cs) (calls itoa publish_error r cs)) (sym e)
            (calls-Adds (record s { cancelled = true }) cs ps c))
    | inr b ↦
        (let e : on_cancel itoa publish_error s ≡ s = ground (arith, b) in
          subst (λ r. Adds s (script cs) (calls itoa publish_error r cs)) (sym e)
            (calls-Adds s cs ps c))
  ]

  -- After Start the messages are the first event and those that the handler means to send.
  pub start-script :
      (s : StreamSession) (payload : String) (cs : List (Call itoa publish_error))
      → s.outbox ≡ []
      → s.closed ≡ false
      → All (IsPlain itoa publish_error) cs
      → map shown (calls itoa publish_error (start itoa publish_error s payload).1 cs).outbox
        ≡ ("start", payload) ∷ script cs
  unfolding start
  start-script s payload cs o c p =
      let u = (publish itoa publish_error s "start" payload []).1 in
      Sends-Adds s u (calls itoa publish_error u cs) "start" payload (script cs)
        (publish-Sends s "start" payload [] tt) (calls-Adds u cs p (still s "start" payload [] c))
      ∙ ap (λ ms. map shown ms ++ ("start", payload) ∷ script cs) o
