-- ===== src/Bedrock/Catalog.antt =====
-- autoupdate.go: listActiveProfileIDs, the scan of the catalog page by page. The client of AWS is a
-- parameter.
pub mod Laws
pub mod Examples
use ai_agent_go_service.Prelude.{
  ℕ, zero, suc, String, Bool, true, List, [], ◌∷◌, ◌++◌, Option, none, some, Result, ok, err,
}

-- What the scan reads of a profile, and of an answer.
pub record Profile : Type 0 where
  pub active : Bool
  pub inference_profile_id : Option String

pub record Page : Type 0 where
  pub summaries : List Profile
  pub next_token : Option String

pub data ScanError : Type 0 where
  refused : String → ScanError
  too_many_pages : ℕ → ScanError

abbrev pub max_profile_pages : ℕ
max_profile_pages = 50

add_active : Bool → Option String → List String → List String
add_active true (some id) ids = ids ++ id ∷ []
add_active _ _ ids = ids

-- The ids of a page, behind those of the pages before it.
unfoldable pub add_page : List String → List Profile → List String
unfolding add_active
add_page ids [] = ids
add_page ids (p ∷ ps) = add_page (add_active p.active p.inference_profile_id ids) ps

module _ {W : Type 0} (list_inference_profiles : Option String → W → Result String Page × W) where
  after_page :
      List String
      → Result String Page × W
      → (List String → String → W → Result ScanError (List String) × W)
      → Result ScanError (List String) × W
  unfolding add_page
  after_page ids (err e, w) more = (err (refused e), w)
  after_page ids (ok p, w) more = elim p.next_token [
    | none ↦ (ok (add_page ids p.summaries), w)
    | some t ↦ more (add_page ids p.summaries) t w
  ]

  -- The pages that may follow this one.
  unfoldable pub scan_pages :
      ℕ → Option String → List String → W → Result ScanError (List String) × W
  unfolding after_page
  scan_pages zero token ids w =
      after_page ids (list_inference_profiles token w)
        (λ ids' t w'. (err (too_many_pages max_profile_pages), w'))
  scan_pages (suc left) token ids w =
      after_page ids (list_inference_profiles token w)
        (λ ids' t w'. scan_pages left (some t) ids' w')

  unfoldable pub list_active_profile_ids : W → Result ScanError (List String) × W
  unfolding scan_pages
  list_active_profile_ids w = scan_pages 49 none [] w
