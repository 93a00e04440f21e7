-- ===== src/NatsChat/Collect/Laws.antt =====
-- A collected stream gives one result, at its first end.
use ai_agent_go_service.Prelude.{
  ◌≡◌, refl, ap, sym, subst, String, ◌==◌, Bool, true, false, List, [], ◌∷◌, ◌++◌, Bool-cases, inl,
  inr, Result, ok, err,
}
use mathlib.Core.List.{append-nil}
use ai_agent_go_service.NatsChat.Collect.{
  Kind, stream_complete, stream_attachment, other_kind, StreamEvent, CompletePayload, SingleResult,
  PayloadCodec, CollectSink, new_collect_sink, executor_failed, SinkCall, sends, closes, send,
  send_kind, keep, close, close_once, close_result, complete_result, marshalled, error_result,
  or_else, collect,
}

-- The attachment that an event carries.
abbrev pub attached : Kind → String → List String
attached stream_complete raw = []
attached stream_attachment raw = raw ∷ []
attached (other_kind t) raw = []

abbrev pub is_complete : Kind → Bool
is_complete stream_complete = true
is_complete stream_attachment = false
is_complete (other_kind t) = false

abbrev pub error_of : String → String → SingleResult
error_of code message = record { body = ""; err_code = code; err_message = message }

-- What one result says of the event that ended the stream: the answer with the attachments, or an
-- error with a code.
pub data Answers (codec : PayloadCodec) (id : String) (atts : List String) (term : StreamEvent)
    : SingleResult → Type 0 where
  answered :
      (p : CompletePayload) (body : String)
      → term.kind ≡ stream_complete
      → codec.decode_complete term.data_raw ≡ ok p
      → codec.marshal (record {
        session_id = id;
        final_text = p.final_text;
        stop_reason = p.message_stop;
        attachments = atts;
      })
        ≡ ok body
      → Answers codec id atts term (record { body = body; err_code = ""; err_message = "" })
  undecoded :
      (e message : String)
      → term.kind ≡ stream_complete
      → codec.decode_complete term.data_raw ≡ err e
      → Answers codec id atts term (error_of executor_failed message)
  unencoded :
      (p : CompletePayload) (e message : String)
      → term.kind ≡ stream_complete
      → codec.decode_complete term.data_raw ≡ ok p
      → codec.marshal (record {
        session_id = id;
        final_text = p.final_text;
        stop_reason = p.message_stop;
        attachments = atts;
      })
        ≡ err e
      → Answers codec id atts term (error_of executor_failed message)
  broken_off :
      (code message : String)
      → is_complete term.kind ≡ false
      → (code == "") ≡ false
      → Answers codec id atts term (error_of code message)

-- The results of the calls, when the attachments `atts` came before them.
abbrev pub Settles :
    PayloadCodec → String → List String → List SinkCall → List SingleResult → Type 0
Settles codec id atts [] done = done ≡ []
Settles codec id atts (sends e ∷ calls) done =
    Settles codec id (atts ++ attached e.kind e.data_raw) calls done
Settles codec id atts (closes term ∷ calls) done =
    (r : SingleResult) × (done ≡ r ∷ []) × Answers codec id atts term r

abbrev pub open_sink : String → List String → CollectSink
open_sink id atts = record { session_id = id; closed = false; attachments = atts; done = [] }

abbrev sealed : String → List String → SingleResult → CollectSink
sealed id atts r = record { session_id = id; closed = true; attachments = atts; done = r ∷ [] }

send_kind-open :
    (id : String) (atts : List String) (k : Kind) (raw : String)
    → send_kind k raw (open_sink id atts) ≡ open_sink id (atts ++ attached k raw)
unfolding send_kind keep
send_kind-open id atts stream_complete raw = ap (open_sink id) (sym (append-nil atts))
send_kind-open id atts stream_attachment raw = refl
send_kind-open id atts (other_kind t) raw = ap (open_sink id) (sym (append-nil atts))

send_kind-sealed :
    (id : String) (atts : List String) (r : SingleResult) (k : Kind) (raw : String)
    → send_kind k raw (sealed id atts r) ≡ sealed id atts r
unfolding send_kind keep
send_kind-sealed id atts r stream_complete raw = refl
send_kind-sealed id atts r stream_attachment raw = refl
send_kind-sealed id atts r (other_kind t) raw = refl

collect-sealed :
    (codec : PayloadCodec) (id : String) (atts : List String) (r : SingleResult)
    (calls : List SinkCall)
    → (collect codec calls (sealed id atts r)).done ≡ r ∷ []
unfolding collect send close close_once
collect-sealed codec id atts r [] = refl
collect-sealed codec id atts r (sends e ∷ calls) =
    subst (λ c. (collect codec calls c).done ≡ r ∷ [])
      (sym (send_kind-sealed id atts r e.kind e.data_raw)) (collect-sealed codec id atts r calls)
collect-sealed codec id atts r (closes term ∷ calls) = collect-sealed codec id atts r calls

or_else-set : (default s : String) → (default == "") ≡ false → (or_else default s == "") ≡ false
unfolding or_else
or_else-set default s h = elim (Bool-cases (s == "")) [ inl t ↦ rw t h | inr f ↦ rw f f ]

module _ (codec : PayloadCodec) (id : String) (atts : List String) where
  error_result-Answers :
      (term : StreamEvent)
      → is_complete term.kind ≡ false
      → Answers codec id atts term (error_result codec (codec.decode_error term.data_raw))
  unfolding error_result
  error_result-Answers term h =
      broken_off _ _ h (or_else-set executor_failed (codec.decode_error term.data_raw).code refl)

  marshalled-Answers :
      (term : StreamEvent) (p : CompletePayload) (m : Result String String)
      → term.kind ≡ stream_complete
      → codec.decode_complete term.data_raw ≡ ok p
      → codec.marshal (record {
        session_id = id;
        final_text = p.final_text;
        stop_reason = p.message_stop;
        attachments = atts;
      })
        ≡ m
      → Answers codec id atts term (marshalled codec m)
  unfolding marshalled
  marshalled-Answers term p (ok body) k d m = answered p body k d m
  marshalled-Answers term p (err e) k d m = unencoded p e _ k d m

  complete_result-Answers :
      (term : StreamEvent) (x : Result String CompletePayload)
      → term.kind ≡ stream_complete
      → codec.decode_complete term.data_raw ≡ x
      → Answers codec id atts term (complete_result codec (open_sink id atts) x)
  unfolding complete_result
  complete_result-Answers term (ok p) k d = marshalled-Answers term p _ k d refl
  complete_result-Answers term (err e) k d = undecoded e _ k d

  close_result-Answers :
      (term : StreamEvent) (k : Kind)
      → term.kind ≡ k
      → Answers codec id atts term (close_result codec k term.data_raw (open_sink id atts))
  unfolding close_result
  close_result-Answers term stream_complete e = complete_result-Answers term _ e refl
  close_result-Answers term stream_attachment e = error_result-Answers term (ap is_complete e)
  close_result-Answers term (other_kind t) e = error_result-Answers term (ap is_complete e)

collect-Settles_from :
    (codec : PayloadCodec) (id : String) (atts : List String) (calls : List SinkCall)
    → Settles codec id atts calls (collect codec calls (open_sink id atts)).done
unfolding collect send close close_once
collect-Settles_from codec id atts [] = refl
collect-Settles_from codec id atts (sends e ∷ calls) =
    subst
      (λ c.
        Settles codec id (atts ++ attached e.kind e.data_raw) calls (collect codec calls c).done)
      (sym (send_kind-open id atts e.kind e.data_raw))
      (collect-Settles_from codec id (atts ++ attached e.kind e.data_raw) calls)
collect-Settles_from codec id atts (closes term ∷ calls) = (
  _,
  collect-sealed codec id atts _ calls,
  close_result-Answers codec id atts term term.kind refl,
)

-- Whatever is sent and closed in whatever order, a collected stream gives no result before its first
-- end, and exactly one from then on: the encoded answer with all attachments that were sent before,
-- in order, if the stream completed, and an error with a code that is not empty if it ended
-- otherwise, or if its answer does not decode or encode.
pub collect-Settles :
    (codec : PayloadCodec) (id : String) (calls : List SinkCall)
    → Settles codec id [] calls (collect codec calls (new_collect_sink id)).done
collect-Settles codec id calls = collect-Settles_from codec id [] calls
