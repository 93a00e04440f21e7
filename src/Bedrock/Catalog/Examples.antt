-- ===== src/Bedrock/Catalog/Examples.antt =====
-- A catalog of two pages, the second for the token of the first; the world counts the requests.
use ai_agent_go_service.Prelude.{
  ℕ, ◌+◌, ◌≤◌, ◌≡◌, refl, ◌↔◌, String, true, false, List, [], ◌∷◌, Option, none, some, Result, ok,
  err,
}
use ai_agent_go_service.Bedrock.Catalog.{Profile, Page, too_many_pages, list_active_profile_ids}
use ai_agent_go_service.Bedrock.Catalog.Laws.{
  Pages, count_pages, all_active_ids, list_active_profile_ids_iff,
}

abbrev active : String → Profile
active id = record { active = true; inference_profile_id = some id }

abbrev retired : String → Profile
retired id = record { active = false; inference_profile_id = some id }

abbrev catalog : Option String → ℕ → Result String Page × ℕ
catalog none n =
    (ok (record { summaries = active "opus" ∷ retired "old" ∷ []; next_token = some "t" }), n + 1)
catalog (some t) n = (ok (record { summaries = active "haiku" ∷ []; next_token = none }), n + 1)

abbrev endless : Option String → ℕ → Result String Page × ℕ
endless token n = (ok (record { summaries = []; next_token = some "t" }), n + 1)

both_pages : list_active_profile_ids catalog 0 ≡ (ok ("opus" ∷ "haiku" ∷ []), 2)
unfolding list_active_profile_ids
both_pages = refl

endless_pages : list_active_profile_ids endless 0 ≡ (err (too_many_pages 50), 50)
unfolding list_active_profile_ids
endless_pages = refl

list_active_profile_ids_iff_example :
    (list_active_profile_ids catalog 0 ≡ (ok ("opus" ∷ "haiku" ∷ []), 2)) ↔ (
      (ps : List Page) × (Pages catalog none 0 ps 2
        × ((count_pages ps ≤ 50) × ("opus" ∷ "haiku" ∷ [] ≡ all_active_ids ps))))
list_active_profile_ids_iff_example =
    list_active_profile_ids_iff catalog ("opus" ∷ "haiku" ∷ []) 0 2
