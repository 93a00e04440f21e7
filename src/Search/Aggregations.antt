-- ===== src/Search/Aggregations.antt =====
-- aggallowlist.go: which aggregations reach OpenSearch. The fields of an object stand in the
-- order in which the walk visits them: names sorted, the keys of a body in any order.
pub mod Safety
pub mod Examples
use ai_agent_go_service.Prelude.{
  ℕ, suc, ◌+◌, String, ◌==◌, Bool, ◌||◌, List, [], ◌∷◌, Option, some, none, Result, ok, err, ◌>>=◌,
  elem, eqb, ltb, if◌then◌else◌,
}
use ai_agent_go_service.Json.{Value, object, text, Fields, no_fields, field}

abbrev pub allowed_agg_types : List String
allowed_agg_types =
    "terms" ∷ "multi_terms" ∷ "rare_terms" ∷ "date_histogram" ∷ "auto_date_histogram" ∷ "histogram"
    ∷ "range" ∷ "date_range" ∷ "filter" ∷ "filters" ∷ "missing" ∷ "composite" ∷ "nested" ∷ "avg"
    ∷ "sum" ∷ "min" ∷ "max" ∷ "stats" ∷ "extended_stats" ∷ "value_count" ∷ "cardinality"
    ∷ "percentiles" ∷ "percentile_ranks" ∷ "median_absolute_deviation" ∷ "weighted_avg" ∷ "top_hits"
    ∷ "bucket_script" ∷ "bucket_selector" ∷ "bucket_sort" ∷ "avg_bucket" ∷ "sum_bucket"
    ∷ "min_bucket" ∷ "max_bucket" ∷ "stats_bucket" ∷ "extended_stats_bucket" ∷ "percentiles_bucket"
    ∷ "cumulative_sum" ∷ "derivative" ∷ "moving_fn" ∷ "serial_diff" ∷ []

abbrev pub max_agg_depth : ℕ
max_agg_depth = 10

pub data AggError : Type 0 where
  not_object : AggError
  too_deep : AggError
  body_not_object sub_not_object : String → AggError
  type_not_allowed : String → String → AggError
  type_count : String → ℕ → AggError

pub is_allowed : String → Bool
is_allowed key = elem key allowed_agg_types

-- case "aggs", "aggregations"
abbrev pub is_sub_key : String → Bool
is_sub_key key = key == "aggs" || key == "aggregations"

-- The depth test, on entry.
limited : ℕ → Option AggError → Option AggError
limited depth r = if ltb max_agg_depth depth then some too_deep else r

counted : String → Result AggError ℕ → Option AggError
counted name (ok types) = if eqb types 1 then none else some (type_count name types)
counted name (err e) = some e

then_zero : Option AggError → Result AggError ℕ
then_zero none = ok 0
then_zero (some e) = err e

or_next : Option AggError → Option AggError → Option AggError
or_next none r = r
or_next (some e) r = some e

-- The switch on a key: how many types it adds; `below` is the walk below it.
key_types : String → String → Option AggError → Result AggError ℕ
unfolding then_zero is_allowed
key_types name key below =
    if is_sub_key key
    then then_zero below
    else if key == "meta"
    then ok 0
    else if is_allowed key
    then ok 1
    else err (type_not_allowed key name)

unfoldable mutual
  unfolding limited counted key_types or_next

  -- The loop over the named aggregations.
  pub walk_named : ℕ → Fields → Option AggError
  walk_named depth no_fields = none
  walk_named depth (field name v rest) = or_next (walk_one depth name v) (walk_named depth rest)

  pub walk_one : ℕ → String → Value → Option AggError
  walk_one depth name (object body) = counted name (walk_body depth name body 0)
  walk_one depth name _ = some (body_not_object name)

  -- The loop over the keys of one aggregation, which counts its types.
  pub walk_body : ℕ → String → Fields → ℕ → Result AggError ℕ
  walk_body depth name no_fields types = ok types
  walk_body depth name (field key v rest) types =
      key_types name key (walk_sub depth name v) >>= (λ n. walk_body depth name rest (types + n))

  pub walk_sub : ℕ → String → Value → Option AggError
  walk_sub depth name (object sub) = limited (suc depth) (walk_named (suc depth) sub)
  walk_sub depth name _ = some (sub_not_object name)

pub walk_aggs : ℕ → Fields → Option AggError
unfolding limited walk_named
walk_aggs depth aggs = limited depth (walk_named depth aggs)

-- strings.TrimSpace, strings.HasPrefix of a quotation mark, and encoding/json: `unquote` is
-- json.Unmarshal into a string, `decode` the decoder with UseNumber, which fails on a second
-- value too.
pub record Codec : Type 0 where
  pub trim : String → String
  pub is_quoted : String → Bool
  pub unquote : String → Option String
  pub decode : String → Option Value
  pub marshal : Fields → Option String

module _ (codec : Codec) where
  open codec use {trim, is_quoted, unquote, decode, marshal}

  abbrev is_blank : String → Bool
  is_blank s = s == "" || s == "null"

  marshaled : Fields → Option AggError → Result AggError (Option String)
  marshaled aggs (some e) = err e
  marshaled aggs none = elim (marshal aggs) [ none ↦ err not_object | some out ↦ ok (some out) ]

  checked : Option Value → Result AggError (Option String)
  unfolding marshaled
  checked (some (object no_fields)) = ok none
  checked (some (object aggs)) = marshaled aggs (walk_aggs 1 aggs)
  checked _ = err not_object

  -- A string that holds the object is decoded first.
  inner : Option String → Result AggError (Option String)
  unfolding checked
  inner none = err not_object
  inner (some s) = if is_blank (trim s) then ok none else checked (decode (trim s))

  pub normalize_aggregations : String → Result AggError (Option String)
  unfolding inner checked
  normalize_aggregations raw =
      if is_blank (trim raw)
      then ok none
      else if is_quoted (trim raw)
      then inner (unquote raw)
      else checked (decode (trim raw))

  pub validate_aggregations : String → Option AggError
  unfolding normalize_aggregations
  validate_aggregations raw = elim (normalize_aggregations raw) [ ok out ↦ none | err e ↦ some e ]
