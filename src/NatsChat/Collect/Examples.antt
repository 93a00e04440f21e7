-- ===== src/NatsChat/Collect/Examples.antt =====
-- A chart, an answer, and what comes too late.
use ai_agent_go_service.Prelude.{◌≡◌, refl, List, [], ◌∷◌, ok}
use ai_agent_go_service.NatsChat.Collect.{
  stream_complete, stream_attachment, other_kind, PayloadCodec, SinkCall, sends, closes,
  new_collect_sink, send, close, collect,
}
use ai_agent_go_service.NatsChat.Collect.Laws.{Settles, collect-Settles}

abbrev codec : PayloadCodec
codec = record {
  decode_complete = λ s. ok (record { final_text = s; message_stop = "end_turn" });
  decode_error = λ s. record { code = s; message = "" };
  marshal = λ b. ok b.final_text;
}

abbrev calls : List SinkCall
calls =
    sends (record { kind = other_kind "delta"; data_raw = "h" })
    ∷ sends (record { kind = stream_attachment; data_raw = "chart" })
    ∷ closes (record { kind = stream_complete; data_raw = "hi" })
    ∷ closes (record { kind = other_kind "error"; data_raw = "late" })
    ∷ []

collect-Settles_example :
    Settles codec "s" [] calls (collect codec calls (new_collect_sink "s")).done
collect-Settles_example = collect-Settles codec "s" calls

answers_once :
    (collect codec calls (new_collect_sink "s")).done
    ≡ record { body = "hi"; err_code = ""; err_message = "" } ∷ []
unfolding collect send close
answers_once = refl

names_the_failure :
    (collect codec
      (closes (record { kind = other_kind "error"; data_raw = "" }) ∷ [])
      (new_collect_sink "s")).done
    ≡ record { body = ""; err_code = "executor-failed"; err_message = "workflow failed" } ∷ []
unfolding collect close
names_the_failure = refl
