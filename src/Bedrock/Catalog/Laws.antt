-- ===== src/Bedrock/Catalog/Laws.antt =====
-- The pages of the catalog, and what the scan makes of them.
use ai_agent_go_service.Prelude.{
  ℕ, zero, suc, ◌≤◌, ◌≡◌, refl, sym, ap, ◌∙◌, ◌↔◌, String, Bool, true, false, List, [], ◌∷◌, ◌++◌,
  Option, none, some, Result, ok, err, arith, Option-cases, inl, inr,
}
use mathlib.Core.List.{append-nil, append_assoc}
use ai_agent_go_service.Bedrock.Catalog.{
  Profile, Page, ScanError, add_active, add_page, after_page, scan_pages, list_active_profile_ids,
}

-- An id that the catalog gives for an active profile.
profile_ids : Bool → Option String → List String
profile_ids true (some id) = id ∷ []
profile_ids true none = []
profile_ids false o = []

active_ids : List Profile → List String
unfolding profile_ids
active_ids [] = []
active_ids (p ∷ ps) = profile_ids p.active p.inference_profile_id ++ active_ids ps

pub all_active_ids : List Page → List String
unfolding active_ids
all_active_ids [] = []
all_active_ids (p ∷ ps) = active_ids p.summaries ++ all_active_ids ps

pub count_pages : List Page → ℕ
count_pages [] = 0
count_pages (p ∷ ps) = suc (count_pages ps)

-- The pages that the client gives, each for the token of the one before; the last has none.
pub data Pages {W : Type 0} (client : Option String → W → Result String Page × W)
    : Option String → W → List Page → W → Type 0 where
  last_page :
      {token : Option String} {w w' : W} {p : Page}
      → client token w ≡ (ok p, w')
      → p.next_token ≡ none
      → Pages client token w (p ∷ []) w'
  next_page :
      {token : Option String} {w w' w'' : W} {p : Page} {t : String} {ps : List Page}
      → client token w ≡ (ok p, w')
      → p.next_token ≡ some t
      → Pages client (some t) w' ps w''
      → Pages client token w (p ∷ ps) w''

add_active-ids :
    (b : Bool) (o : Option String) (ids : List String) → add_active b o ids ≡ ids ++ profile_ids b o
unfolding add_active profile_ids
add_active-ids true (some id) ids = refl
add_active-ids true none ids = sym (append-nil ids)
add_active-ids false o ids = sym (append-nil ids)

add_page-ids : (ids : List String) (ps : List Profile) → add_page ids ps ≡ ids ++ active_ids ps
unfolding add_page active_ids
add_page-ids ids [] = sym (append-nil ids)
add_page-ids ids (p ∷ ps) =
    add_page-ids (add_active p.active p.inference_profile_id ids) ps
    ∙ ap (λ x. x ++ active_ids ps) (add_active-ids p.active p.inference_profile_id ids)
    ∙ append_assoc ids (profile_ids p.active p.inference_profile_id) (active_ids ps)

module _ {W : Type 0} (client : Option String → W → Result String Page × W) where
  after_last :
      (ids : List String) (x : Result String Page × W) {p : Page} {w : W}
      (more : List String → String → W → Result ScanError (List String) × W)
      → x ≡ (ok p, w)
      → p.next_token ≡ none
      → after_page client ids x more ≡ (ok (add_page ids p.summaries), w)
  unfolding after_page
  after_last ids x more e n = rw (e, n)

  after_next :
      (ids : List String) (x : Result String Page × W) {p : Page} {w : W} {t : String}
      (more : List String → String → W → Result ScanError (List String) × W)
      → x ≡ (ok p, w)
      → p.next_token ≡ some t
      → after_page client ids x more ≡ more (add_page ids p.summaries) t w
  unfolding after_page
  after_next ids x more e n = rw (e, n)

  gathered :
      (ids : List String) (p : Page) (ps : List Page)
      → add_page ids p.summaries ++ all_active_ids ps ≡ ids ++ all_active_ids (p ∷ ps)
  unfolding all_active_ids
  gathered ids p ps =
      ap (λ x. x ++ all_active_ids ps) (add_page-ids ids p.summaries)
      ∙ append_assoc ids (active_ids p.summaries) (all_active_ids ps)

  last_gathered :
      (ids : List String) (p : Page) → add_page ids p.summaries ≡ ids ++ all_active_ids (p ∷ [])
  unfolding all_active_ids
  last_gathered ids p = sym (append-nil (add_page ids p.summaries)) ∙ gathered ids p []

  -- Pages that end within the limit are all gathered.
  scan_pages-gathers :
      (left : ℕ) {token : Option String} (ids : List String) {w w' : W} {ps : List Page}
      → Pages client token w ps w'
      → count_pages ps ≤ suc left
      → scan_pages client left token ids w ≡ (ok (ids ++ all_active_ids ps), w')
  unfolding scan_pages count_pages
  scan_pages-gathers zero ids (last_page {w' = w'} {p = p} e n) le =
      after_last ids _ _ e n ∙ ap (λ x. (ok x, w')) (last_gathered ids p)
  scan_pages-gathers (suc left) ids (last_page {w' = w'} {p = p} e n) le =
      after_last ids _ _ e n ∙ ap (λ x. (ok x, w')) (last_gathered ids p)
  scan_pages-gathers zero ids (next_page e n (last_page e' n')) le = absurd (omega arith)
  scan_pages-gathers zero ids (next_page e n (next_page e' n' h)) le = absurd (omega arith)
  scan_pages-gathers (suc left) ids {w' = w'} (next_page {p = p} {ps = ps} e n h) le =
      after_next ids _ _ e n
      ∙ scan_pages-gathers left (add_page ids p.summaries) h (omega arith)
      ∙ ap (λ x. (ok x, w')) (gathered ids p ps)

  -- A page that leads to a result is the last, or another follows it.
  data Follows (ids ids' : List String) (w' : W)
      (more : List String → String → W → Result ScanError (List String) × W)
      : Result String Page × W → Type 0 where
    ends :
        {p : Page} {w : W}
        → p.next_token ≡ none
        → ids' ≡ add_page ids p.summaries
        → w ≡ w'
        → Follows ids ids' w' more (ok p, w)
    goes_on :
        {p : Page} {w : W} {t : String}
        → p.next_token ≡ some t
        → more (add_page ids p.summaries) t w ≡ (ok ids', w')
        → Follows ids ids' w' more (ok p, w)

  ends_by :
      {ids ids' : List String} {w w' : W} {p : Page}
      {more : List String → String → W → Result ScanError (List String) × W}
      → p.next_token ≡ none
      → ◌≡◌ {A = Result ScanError (List String) × W}
          (ok (add_page ids p.summaries), w)
          (ok ids', w')
      → Follows ids ids' w' more (ok p, w)
  ends_by n r = ends n (let r0 = ap (λ x. x.0) r in cc) (ap (λ x. x.1) r)

  after_page-Follows :
      (ids ids' : List String) (x : Result String Page × W) (w' : W)
      (more : List String → String → W → Result ScanError (List String) × W)
      → after_page client ids x more ≡ (ok ids', w')
      → Follows ids ids' w' more x
  unfolding after_page
  after_page-Follows ids ids' (err e, w) w' more h = absurd (ground arith)
  after_page-Follows ids ids' (ok p, w) w' more h = elim (Option-cases p.next_token) [
    | inl n ↦ ends_by n (rw n at h)
    | inr (t, n) ↦ goes_on n (rw n at h)
  ]

  -- A result of the scan from a token on, and the pages behind it, `most` at most.
  record Scanned (most : ℕ) (token : Option String) (ids ids' : List String) (w w' : W)
      : Type 0 where
    pages : List Page
    chain : Pages client token w pages w'
    few : count_pages pages ≤ most
    all_ids : ids' ≡ ids ++ all_active_ids pages

  Follows-Scanned :
      (k : ℕ) {token : Option String} {ids ids' : List String} {w w' : W}
      {more : List String → String → W → Result ScanError (List String) × W}
      (x : Result String Page × W)
      → client token w ≡ x
      → Follows ids ids' w' more x
      → ((i : List String) (t : String) (u : W)
          → more i t u ≡ (ok ids', w')
          → Scanned k (some t) i ids' u w')
      → Scanned (suc k) token ids ids' w w'
  unfolding count_pages
  Follows-Scanned k (err e', w) e f rest = elim f [ ]
  Follows-Scanned k {ids = ids} (ok p, w) e (ends n i q) rest = record {
    pages = p ∷ [];
    chain = last_page (e ∙ ap (λ x. (ok p, x)) q) n;
    few = omega arith;
    all_ids = i ∙ last_gathered ids p;
  }
  Follows-Scanned k {ids = ids} (ok p, w) e (goes_on {t = t} n h) rest =
      let s = rest (add_page ids p.summaries) t w h in
      record {
        pages = p ∷ s.pages;
        chain = next_page e n s.chain;
        few = let few = s.few in omega arith;
        all_ids = s.all_ids ∙ gathered ids p s.pages;
      }

  scan_pages-Scanned :
      (left : ℕ) (token : Option String) (ids ids' : List String) (w w' : W)
      → scan_pages client left token ids w ≡ (ok ids', w')
      → Scanned (suc left) token ids ids' w w'
  unfolding scan_pages
  scan_pages-Scanned zero token ids ids' w w' h =
      Follows-Scanned 0 _ refl (after_page-Follows ids ids' (client token w) w' _ h)
        (λ i t u h'. absurd (ground arith))
  scan_pages-Scanned (suc left) token ids ids' w w' h =
      Follows-Scanned (suc left) _ refl (after_page-Follows ids ids' (client token w) w' _ h)
        (λ i t u h'. scan_pages-Scanned left (some t) i ids' u w' h')

  -- The scan returns a list of ids exactly if the pages of the catalog, each asked for with the
  -- token of the one before, end within fifty; the list has the ids of their active profiles, in
  -- order. An error of the client, or a page more, fails the scan.
  pub list_active_profile_ids_iff :
      (ids : List String) (w w' : W)
      → (list_active_profile_ids client w ≡ (ok ids, w')) ↔ (
          (ps : List Page) × (Pages client none w ps w'
            × ((count_pages ps ≤ 50) × (ids ≡ all_active_ids ps))))
  unfolding list_active_profile_ids
  list_active_profile_ids_iff ids w w' = (
    (λ h.
        let s = scan_pages-Scanned 49 none [] ids w w' h in
        (s.pages, (s.chain, (s.few, s.all_ids)))),
    (λ (ps, (chain, (few, e))). scan_pages-gathers 49 [] chain few ∙ ap (λ x. (ok x, w')) (sym e)),
  )
