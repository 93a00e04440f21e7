-- ===== src/Agent/Charts.antt =====
-- The charts of loop.go: which charts an answer refers to, which were rendered this turn, and how
-- the answer is made to show the rendered ones. The regular expressions are a record of the caller.
pub mod Laws
pub mod Examples
use ai_agent_go_service.Prelude.{
  ℕ, String, ◌==◌, Bool, true, false, elem, eqb, length, List, [], ◌∷◌, ◌++◌, Option, some, none,
  map, if◌then◌else◌,
}
use Prim.Native.String.{◌++◌ as concat}

pub record ChartRef : Type 0 where
  pub key : String
  pub url : String

-- A part of a text: what lies between the matches of chartImgRe, or a match with its alt and url.
pub data Piece : Type 0 where
  between : String → Piece
  image_match : String → String → String → Piece

-- The matches of chartKeyRe (the key), of chartURLRe (the url and the key) and of chartImgRe.
pub record Patterns : Type 0 where
  pub find_keys : String → List String
  pub find_urls : String → List (String × String)
  pub split_images : String → List Piece
  pub has_backslash : String → Bool
  pub unmarshal_text : String → Option String
  pub trim : String → String

-- The loop over the matches, with the keys seen so far.
unfoldable pub distinct_from : List String → List String → List String
distinct_from seen [] = []
distinct_from seen (k ∷ ks) = elim (elem k seen) [
  | true ↦ distinct_from seen ks
  | false ↦ k ∷ distinct_from (k ∷ seen) ks
]

unfoldable pub chart_keys_of : List ChartRef → List String
chart_keys_of [] = []
chart_keys_of (r ∷ rs) = r.key ∷ chart_keys_of rs

unfoldable pub missing_chart_keys : List String → List String → List String
missing_chart_keys [] produced = []
missing_chart_keys (k ∷ ks) produced =
    let rest = missing_chart_keys ks produced in if elem k produced then rest else k ∷ rest

-- The map `byKey`: of two charts with one key, the later one stays.
unfoldable pub url_of : String → List ChartRef → Option String
url_of key [] = none
url_of key (c ∷ cs) = elim (url_of key cs) [
  | some u ↦ some u
  | none ↦ if c.key == key then some c.url else none
]

unfoldable pub markdown : String → String → String
markdown alt url = concat "![" (concat alt (concat "](" (concat url ")")))

unfoldable pub first_key : List String → String
first_key [] = ""
first_key (k ∷ ks) = k

only_url : List ChartRef → Option String
only_url (c ∷ []) = some c.url
only_url cs = none

module _ (patterns : Patterns) where
  open patterns use {find_keys, find_urls, split_images, has_backslash, unmarshal_text, trim}

  unfoldable pub extract_chart_keys : String → List String
  extract_chart_keys s = distinct_from [] (find_keys s)

  unfoldable pub unescape_json_url : String → String
  unescape_json_url u =
      if has_backslash u
      then elim (unmarshal_text (concat "\"" (concat u "\""))) [ some dec ↦ dec | none ↦ u ]
      else u

  -- The loop over the matches, with the keys seen so far.
  refs_from : List String → List (String × String) → List ChartRef
  unfolding unescape_json_url
  refs_from seen [] = []
  refs_from seen ((url, key) ∷ ms) = elim (elem key seen) [
    | true ↦ refs_from seen ms
    | false ↦ record { key = key; url = unescape_json_url url } ∷ refs_from (key ∷ seen) ms
  ]

  unfoldable pub extract_chart_refs : String → List ChartRef
  unfolding refs_from
  extract_chart_refs s = refs_from [] (find_urls s)

  -- The function that is called on each match.
  unfoldable pub correct_image : List ChartRef → Piece → String
  unfolding first_key only_url
  correct_image produced (between s) = s
  correct_image produced (image_match match alt url) =
      elim (url_of (first_key (extract_chart_keys url)) produced) [
        | some canonical ↦ markdown alt canonical
        | none ↦ elim (only_url produced) [ some u ↦ markdown alt u | none ↦ match ]
      ]

  correct_images : List ChartRef → List Piece → String
  correct_images produced [] = ""
  correct_images produced (p ∷ ps) = concat (correct_image produced p) (correct_images produced ps)

  unfoldable pub correct_chart_refs : String → List ChartRef → String
  unfolding correct_images
  correct_chart_refs s produced = correct_images produced (split_images s)

  images_missing : List String → List ChartRef → List String
  images_missing present [] = []
  images_missing present (c ∷ cs) =
      let rest = images_missing present cs in
      if elem c.key present then rest else markdown "chart" c.url ∷ rest

  join_images : List String → String
  join_images [] = ""
  join_images (s ∷ []) = s
  join_images (s ∷ ss) = concat s (concat "\n\n" (join_images ss))

  with_images : String → List String → String × ℕ
  unfolding join_images
  with_images s [] = (s, 0)
  with_images s (i ∷ is) =
      let joined = join_images (i ∷ is) in
      if trim s == ""
      then (joined, length (i ∷ is))
      else (concat s (concat "\n\n" joined), length (i ∷ is))

  unfoldable pub append_missing_charts : String → List ChartRef → String × ℕ
  unfolding images_missing with_images
  append_missing_charts s produced = with_images s (images_missing (extract_chart_keys s) produced)
