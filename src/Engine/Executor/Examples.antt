-- ===== src/Engine/Executor/Examples.antt =====
-- A workflow whose agent fails; one attachment brings bytes.
use ai_agent_go_service.Prelude.{◌==◌, true, false, [], ◌∷◌, some, ok, err}
use ai_agent_go_service.Engine.Executor.{
  Attachment, TriggerEvent, Workflow, run, persist_attachments,
}
use ai_agent_go_service.Engine.Executor.Laws.{
  Ended, AllKept, run-Ended, persist_attachments-AllKept,
}

abbrev photo : Attachment
photo = record {
  url = "local";
  media_type = "image/png";
  filename = "a.png";
  size = 2;
  bytes = 1 ∷ 2 ∷ [];
}

abbrev wf : Workflow
wf = record {
  topo_order = "trigger" ∷ "agent" ∷ [];
  is_agent = λ id. id == "agent";
  is_mapping_provider = λ id. false;
  mapping_of = λ id t. err "none";
  has_uploader = true;
  upload = λ a t. ok "https://bucket/a.png";
  process = λ id input t. some "llm-error";
  parse_chat_body = λ body. ("hello", photo ∷ []);
}

abbrev evt : TriggerEvent
evt = record {
  session_id = "s";
  user_id = "u";
  request_id = "r";
  body = "{}";
  has_stream_sink = true;
  has_reply = true;
}

run-Ended_example : Ended evt (run wf evt []).0 (run wf evt []).1
run-Ended_example = run-Ended wf evt []

persist_attachments-AllKept_example :
    AllKept (photo ∷ []) (persist_attachments wf "s" (photo ∷ []) []).0
persist_attachments-AllKept_example = persist_attachments-AllKept wf "s" (photo ∷ []) []
