-- ===== src/Bedrock/ModelId/Laws.antt =====
-- The candidate that a scan finds is the newest of its line; the next cycle is at the daily hour.
use ai_agent_go_service.Prelude.{
  ℕ, ◌+◌, ◌%◌, ◌≤◌, ◌<◌, ◌≡◌, String, true, false, List, Option, some, none, arith,
}
use mathlib.Core.List.{Memᴰ}
use ai_agent_go_service.Bedrock.ModelId.{
  ParsedModel, Texts, day, anchor, next_run_at, newer_than, same_line, parse_model_id,
}

module _ (texts : Texts) (current : ParsedModel) where
  -- No id of the list that is of the model's line is newer than the version.
  pub NoneNewer : List String → ParsedModel → Type 0
  NoneNewer ids p =
      (id : String) (q : ParsedModel)
      → Memᴰ id ids
      → parse_model_id texts id ≡ some q
      → same_line q current ≡ true
      → newer_than q p ≡ false

  -- The newest of the model's line: none is newer than the model, or the one found is in the list,
  -- newer than the model, and none is newer than it.
  pub Newest : List String → Option String → Type 0
  Newest ids none = NoneNewer ids current
  Newest ids (some id) =
      (p : ParsedModel) × Memᴰ id ids
      × (parse_model_id texts id ≡ some p)
      × (same_line p current ≡ true)
      × (newer_than p current ≡ true)
      × NoneNewer ids p

  -- What holds of the best so far.
  Good : List String → Option (String × ParsedModel) → Type 0
  Good all none = Unit
  Good all (some (id, p)) =
      Memᴰ id all
      × (parse_model_id texts id ≡ some p)
      × (same_line p current ≡ true)
      × (newer_than p current ≡ true)

-- The next cycle lies in the future, a day away at most, and at 7 o'clock.
next_run_at-next :
    (now : ℕ)
    → (now < next_run_at now) × ((next_run_at now ≤ now + day) × (next_run_at now % day ≡ anchor))
unfolding next_run_at
next_run_at-next now = (ground arith, (ground arith, ground arith))
