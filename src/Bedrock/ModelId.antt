-- ===== src/Bedrock/ModelId.antt =====
-- autoupdate.go: the parts of a model id, the newest of several ids, and the time of the next check.
pub mod Laws
pub mod Examples
use ai_agent_go_service.Prelude.{
  ℕ, ◌+◌, ◌*◌, ◌/◌, String, ◌==◌, Bool, true, false, not, ◌&&◌, ◌||◌, ltb, eqb, List, [], ◌∷◌,
  Option, some, none, if◌then◌else◌, Result, ok, err,
}

pub record ParsedModel : Type 0 where
  pub prefix : String
  pub family : String
  pub major : ℕ
  pub minor : ℕ

-- What the parser takes from strings, regexp and strconv: what stands before and after the first
-- "anthropic.", the number of dots, and the matches of the three patterns. A version matches as a
-- family, a major number and perhaps a minor one, of at most two digits.
pub record Texts : Type 0 where
  pub around_provider : String → Option (String × String)
  pub ends_in_dot : String → Bool
  pub count_dots : String → ℕ
  pub strip_v_suffix : String → String
  pub strip_date : String → String
  pub match_version : String → Option (String × ℕ × Option ℕ)

unfoldable pub newer_than : ParsedModel → ParsedModel → Bool
newer_than p o = if not (eqb p.major o.major) then ltb o.major p.major else ltb o.minor p.minor

unfoldable pub same_line : ParsedModel → ParsedModel → Bool
same_line p q = (p.prefix == q.prefix) && (p.family == q.family)

same_parsed : ParsedModel → ParsedModel → Bool
same_parsed p q =
    (p.prefix == q.prefix) && (p.family == q.family) && eqb p.major q.major && eqb p.minor q.minor

module _ (texts : Texts) where
  open texts use {
    around_provider, ends_in_dot, count_dots, strip_v_suffix, strip_date, match_version,
  }

  minor_of : Option ℕ → ℕ
  minor_of none = 0
  minor_of (some n) = n

  versioned : String → Option (String × ℕ × Option ℕ) → Option ParsedModel
  unfolding minor_of
  versioned prefix none = none
  versioned prefix (some (family, major, minor)) =
      some (record { prefix = prefix; family = family; major = major; minor = minor_of minor })

  after_provider : Option (String × String) → Option ParsedModel
  unfolding versioned
  after_provider none = none
  after_provider (some (prefix, rest)) =
      if prefix == "" || (ends_in_dot prefix && eqb (count_dots prefix) 1)
      then versioned prefix (match_version (strip_date (strip_v_suffix rest)))
      else none

  unfoldable pub parse_model_id : String → Option ParsedModel
  unfolding after_provider
  parse_model_id id = after_provider (around_provider id)

  version_of : ParsedModel → Option (String × ParsedModel) → ParsedModel
  version_of current none = current
  version_of current (some (id, p)) = p

  -- The best so far, if there is one, after one more id and what it parses to.
  better :
      ParsedModel
      → Option (String × ParsedModel)
      → String
      → Option ParsedModel
      → Option (String × ParsedModel)
  unfolding same_line version_of
  better current best id none = best
  better current best id (some p) =
      if same_line p current && newer_than p (version_of current best) then some (id, p) else best

  scan : ParsedModel → Option (String × ParsedModel) → List String → Option (String × ParsedModel)
  unfolding better
  scan current best [] = best
  scan current best (id ∷ ids) = scan current (better current best id (parse_model_id id)) ids

  id_of : Option (String × ParsedModel) → Option String
  id_of none = none
  id_of (some (id, p)) = some id

  unfoldable pub latest_candidate : List String → ParsedModel → Option String
  unfolding scan id_of
  latest_candidate ids current = id_of (scan current none ids)

  both_parsed : String → String → Option ParsedModel → Option ParsedModel → Bool
  unfolding same_parsed
  both_parsed a b (some p) (some q) = same_parsed p q
  both_parsed a b none q = a == b
  both_parsed a b (some p) none = a == b

  unfoldable pub same_model : String → String → Bool
  unfolding both_parsed
  same_model a b = both_parsed a b (parse_model_id a) (parse_model_id b)

  unfoldable pub gateway_candidate_ok : String → ParsedModel → Bool
  gateway_candidate_ok id current = elim (parse_model_id id) [
    | none ↦ false
    | some p ↦ p.family == current.family
  ]

abbrev day : ℕ
day = 86400000000000

abbrev anchor : ℕ
anchor = 25200000000000

-- Nanoseconds since the epoch, in UTC.
unfoldable pub next_run_at : ℕ → ℕ
next_run_at now = let next = now / day * day + anchor in if ltb now next then next else next + day
