-- ===== src/Transport/RoundTrip.antt =====
-- server.go and client.go together: what a handler sends is what the client's channel holds.
pub mod Examples
use ai_agent_go_service.Prelude.{
  ℕ, String, ◌==◌, ◌≡◌, refl, sym, subst, ◌∙◌, Bool, true, false, List, [], ◌∷◌, map, Option, some,
  All, Bool-cases, inl, inr,
}
use ai_agent_go_service.Prelude.Int.{ℤ, pos}
use ai_agent_go_service.Transport.Protocol.{Msg, is_terminator}
use ai_agent_go_service.Transport.Server.{
  StreamSession, Call, send_event, complete_with, fail_with, cancel, start, calls,
}
use ai_agent_go_service.Transport.Server.Sealed.{IsPlain, calls-ordered}
use ai_agent_go_service.Transport.Server.Script.{script, up_to, shown, start-script}
use ai_agent_go_service.Transport.Client.{new_subscription, arrivals}
use ai_agent_go_service.Transport.Client.Reading.{seen, inbox, IsNamed, arrivals-inbox}

-- Every event of the handler has a type.
abbrev pub IsTyped :
    {itoa : ℕ → String} {publish_error : Msg → Option String} → Call itoa publish_error → Type 0
IsTyped (send_event type body header) = (type == "") ≡ false
IsTyped (complete_with payload) = Unit
IsTyped (fail_with payload) = Unit
IsTyped cancel = Unit

abbrev HasType : String × String → Type 0
HasType (type, body) = (type == "") ≡ false

module _ (itoa : ℕ → String) (publish_error : Msg → Option String) (atoi : String → Option ℤ) where
  up_to-HasType :
      (b : Bool) (type body : String) (rest : List (String × String))
      → (type == "") ≡ false
      → All HasType rest
      → All HasType (up_to b (type, body) rest)
  up_to-HasType true type body rest t h = (t, tt)
  up_to-HasType false type body rest t h = (t, h)

  script-HasType : (cs : List (Call itoa publish_error)) → All IsTyped cs → All HasType (script cs)
  script-HasType [] h = tt
  script-HasType (send_event type body header ∷ cs) (t, h) =
      up_to-HasType (is_terminator type) type body (script cs) t (script-HasType cs h)
  script-HasType (complete_with payload ∷ cs) h = (refl, tt)
  script-HasType (fail_with payload ∷ cs) h = (refl, tt)
  script-HasType (cancel ∷ cs) (t, h) = script-HasType cs h

  shown-IsNamed : (ms : List Msg) → All HasType (map shown ms) → All IsNamed ms
  shown-IsNamed [] h = tt
  shown-IsNamed (m ∷ ms) (t, h) = (t, shown-IsNamed ms h)

  -- If the messages of a session arrive in order, none lost, a new client reads the start event and
  -- then exactly the events that the handler sends up to the first that ends the stream, with their
  -- types and bodies, whatever the handler calls after that and whenever the client cancels. The
  -- numbers survive printing, and the handler's events have a type and leave the headers of the
  -- stream alone.
  pub arrivals-calls :
      (s : StreamSession) (payload : String) (cs : List (Call itoa publish_error))
      → ((n : ℕ) → atoi (itoa n) ≡ some (pos n))
      → s.outbox ≡ []
      → s.seq ≡ 0
      → s.closed ≡ false
      → All (IsPlain itoa publish_error) cs
      → All IsTyped cs
      → map seen
          (arrivals atoi new_subscription (
            inbox
              (calls itoa publish_error (start itoa publish_error s payload).1 cs).outbox)).events
        ≡ ("start", payload) ∷ script cs
  arrivals-calls s payload cs reads o q c plain typed =
      let u = calls itoa publish_error (start itoa publish_error s payload).1 cs in
      let (numbered, last) = calls-ordered itoa publish_error s payload cs o q c plain in
      let sent = start-script itoa publish_error s payload cs o c plain in
      let named =
        shown-IsNamed u.outbox
          (subst (λ es. All HasType es) (sym sent) (refl, script-HasType cs typed)) in
      arrivals-inbox atoi itoa publish_error reads 0 u.outbox new_subscription numbered last named
        refl refl
      ∙ sent
