-- ===== src/Search/Aggregations/Examples.antt =====
-- Sums per month: an accepted tree of two levels.
use ai_agent_go_service.Prelude.{◌≡◌, refl, ◌≤◌, true, false, some, none, ok}
use ai_agent_go_service.Json.{object, Fields, no_fields, field, first, later}
use ai_agent_go_service.Search.Aggregations.{
  Codec, normalize_aggregations, walk_aggs, is_allowed, max_agg_depth,
}
use ai_agent_go_service.Search.Aggregations.Safety.{
  normalize_aggregations-IsSent, IsSent, Occurs, here, below, walk_aggs-safe,
}

abbrev total : Fields
total = field "total" (object (field "sum" (object no_fields) no_fields)) no_fields

abbrev monthly : Fields
monthly =
    field "by_month"
      (object (field "date_histogram" (object no_fields) (field "aggs" (object total) no_fields)))
      no_fields

abbrev fixed : Codec
fixed = record {
  trim = λ s. s;
  is_quoted = λ s. false;
  unquote = λ s. none;
  decode = λ s. some (object monthly);
  marshal = λ fs. some "monthly";
}

monthly_sent : normalize_aggregations fixed "monthly" ≡ ok (some "monthly")
unfolding normalize_aggregations walk_aggs
monthly_sent = refl

normalize_aggregations-IsSent_example : IsSent fixed "monthly"
normalize_aggregations-IsSent_example =
    normalize_aggregations-IsSent fixed "monthly" "monthly" monthly_sent

sum-Occurs : Occurs 1 2 "sum" monthly
sum-Occurs = below first (later first) refl (here first first refl refl)

walk_aggs-safe_example : (is_allowed "sum" ≡ true) × (2 ≤ max_agg_depth)
unfolding walk_aggs
walk_aggs-safe_example = walk_aggs-safe monthly refl sum-Occurs
