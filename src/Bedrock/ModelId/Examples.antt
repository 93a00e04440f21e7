-- ===== src/Bedrock/ModelId/Examples.antt =====
-- Three models of one family, one of them of another region.
use ai_agent_go_service.Prelude.{
  ◌≡◌, refl, String, ◌==◌, true, List, [], ◌∷◌, some, none, if◌then◌else◌,
}
use ai_agent_go_service.Bedrock.ModelId.{
  ParsedModel, Texts, next_run_at, newer_than, parse_model_id, latest_candidate,
}

abbrev pub texts : Texts
texts = record {
  around_provider = λ id. if id == "eu.9" then some ("eu.", "9") else some ("us.", id);
  ends_in_dot = λ s. true;
  count_dots = λ s. 1;
  strip_v_suffix = λ s. s;
  strip_date = λ s. s;
  match_version =
      λ s. if s == "new" then some ("claude-opus", 4, some 7) else some ("claude-opus", 4, none);
}

abbrev pub current : ParsedModel
current = record { prefix = "us."; family = "claude-opus"; major = 4; minor = 1 }

abbrev catalog : List String
catalog = "old" ∷ "eu.9" ∷ "new" ∷ []

found : latest_candidate texts catalog current ≡ some "new"
unfolding latest_candidate parse_model_id newer_than
found = refl

-- A minute past the anchor, the next check is a day later.
next_day : next_run_at 25260000000000 ≡ 111600000000000
unfolding next_run_at
next_day = refl
