-- ===== src/Agent/Charts/Laws.antt =====
-- Which charts an answer is said to miss, and which images it ends up with.
use ai_agent_go_service.Prelude.{
  suc, ◌+◌, ◌≤◌, ◌≡◌, refl, ap, sym, ◌∙◌, subst, ◌⊎◌, ◌≢◌, inl, inr, true, false, not, ◌&&◌, ◌||◌,
  String, ◌==◌, eq_iff, elem, count, length, List, [], ◌∷◌, Option, some, none, arith, Bool-cases,
  if◌then◌else◌,
}
use mathlib.Core.List.{Memᴰ}
use ai_agent_go_service.Agent.Charts.{
  ChartRef, Patterns, distinct_from, chart_keys_of, missing_chart_keys, url_of, markdown, first_key,
  only_url, image_match, extract_chart_keys, correct_image,
}

-- Loop over the matches: what was seen before is left out.
elem-distinct_from :
    (k : String) (seen ks : List String)
    → elem k (distinct_from seen ks) ≡ (elem k ks && not (elem k seen))
unfolding distinct_from
elem-distinct_from k seen [] = refl
elem-distinct_from k seen (x ∷ ks) = elim (Bool-cases (elem x seen)) [
  | inl t ↦
      rw (distinct_from, t) (seen_before (elem-distinct_from k seen ks) (Bool-cases (x == k)) t)
  | inr f ↦
      rw (distinct_from, f) (fresh (elem-distinct_from k (x ∷ seen) ks) (Bool-cases (x == k)) f)
]
  where
    seen_before :
        elem k (distinct_from seen ks) ≡ (elem k ks && not (elem k seen))
        → ((x == k) ≡ true) ⊎ ((x == k) ≡ false)
        → elem x seen ≡ true
        → elem k (distinct_from seen ks) ≡ ((x == k || elem k ks) && not (elem k seen))
    seen_before ih (inl q) t =
        let same : elem k seen ≡ true = subst (λ y. elem y seen ≡ true) ((eq_iff x k).0 q) t in
        ground (arith, ih, q, same)
    seen_before ih (inr q) t = ground (arith, ih, q)

    fresh :
        elem k (distinct_from (x ∷ seen) ks) ≡ (elem k ks && not (x == k || elem k seen))
        → ((x == k) ≡ true) ⊎ ((x == k) ≡ false)
        → elem x seen ≡ false
        → (x == k || elem k (distinct_from (x ∷ seen) ks))
          ≡ ((x == k || elem k ks) && not (elem k seen))
    fresh ih (inl q) f =
        let same : elem k seen ≡ false = subst (λ y. elem y seen ≡ false) ((eq_iff x k).0 q) f in
        ground (arith, ih, q, same)
    fresh ih (inr q) f = ground (arith, ih, q)

-- A text is found as often as it was not seen.
count-distinct_from :
    (k : String) (seen ks : List String)
    → count k (distinct_from seen ks) + (if elem k seen then 1 else 0) ≤ 1
unfolding distinct_from
count-distinct_from k seen [] = ground arith
count-distinct_from k seen (x ∷ ks) = elim (Bool-cases (elem x seen)) [
  | inl t ↦ rw (distinct_from, t) (count-distinct_from k seen ks)
  | inr f ↦
      rw (distinct_from, f) (fresh (count-distinct_from k (x ∷ seen) ks) (Bool-cases (x == k)) f)
]
  where
    fresh :
        count k (distinct_from (x ∷ seen) ks) + (if x == k || elem k seen then 1 else 0) ≤ 1
        → ((x == k) ≡ true) ⊎ ((x == k) ≡ false)
        → elem x seen ≡ false
        → (if x == k
              then suc (count k (distinct_from (x ∷ seen) ks))
              else count k (distinct_from (x ∷ seen) ks))
            + (if elem k seen then 1 else 0)
          ≤ 1
    fresh ih (inl q) f =
        let same : elem k seen ≡ false = subst (λ y. elem y seen ≡ false) ((eq_iff x k).0 q) f in
        ground (arith, ih, q, same)
    fresh ih (inr q) f = ground (arith, ih, q)

elem-missing_chart_keys :
    (k : String) (ks produced : List String)
    → elem k (missing_chart_keys ks produced) ≡ (elem k ks && not (elem k produced))
unfolding missing_chart_keys
elem-missing_chart_keys k [] produced = refl
elem-missing_chart_keys k (x ∷ ks) produced = elim (Bool-cases (x == k)) [
  | inl q ↦
      let same : x ≡ k = (eq_iff x k).0 q in
      subst
        (λ y.
          elem k (
            if elem y produced
            then missing_chart_keys ks produced
            else y ∷ missing_chart_keys ks produced)
          ≡ ((y == k || elem k ks) && not (elem k produced)))
        (sym same) (ground (arith, elem-missing_chart_keys k ks produced, eq_iff k k))
  | inr q ↦ ground (arith, elem-missing_chart_keys k ks produced, q)
]

count-missing_chart_keys :
    (k : String) (ks produced : List String) → count k (missing_chart_keys ks produced) ≤ count k ks
unfolding missing_chart_keys
count-missing_chart_keys k [] produced = omega arith
count-missing_chart_keys k (x ∷ ks) produced =
    ground (arith, count-missing_chart_keys k ks produced)

module _ (patterns : Patterns) where
  -- The charts that an answer misses are the keys that the pattern finds in it and that no tool
  -- rendered in this turn; each is listed once.
  pub missing_chart_keys-once :
      (s : String) (produced : List ChartRef) (k : String)
      → let missing = missing_chart_keys (extract_chart_keys patterns s) (chart_keys_of produced) in
        (elem k missing ≡ (elem k (patterns.find_keys s) && not (elem k (chart_keys_of produced))))
        × (count k missing ≤ 1)
  unfolding extract_chart_keys
  missing_chart_keys-once s produced k =
      let found = distinct_from [] (patterns.find_keys s) in
      let rendered = chart_keys_of produced in
      (
        ground (
          arith,
          elem-missing_chart_keys k found rendered,
          elem-distinct_from k [] (patterns.find_keys s),
        ),
        omega (
          arith,
          count-missing_chart_keys k found rendered,
          count-distinct_from k [] (patterns.find_keys s),
        ),
      )

  -- The url of a key is that of a chart with the key.
  url_of-Mem :
      (key u : String) (produced : List ChartRef)
      → url_of key produced ≡ some u
      → (c : ChartRef) × Memᴰ c produced × (c.key ≡ key) × (c.url ≡ u)
  unfolding url_of
  url_of-Mem key u [] h = absurd (ground (arith, h))
  url_of-Mem key u (c ∷ cs) h = found (λ e. url_of-Mem key u cs e) (url_of key cs) refl h
    where
      here :
          (if c.key == key then some c.url else none) ≡ some u
          → ((c.key == key) ≡ true) ⊎ ((c.key == key) ≡ false)
          → (d : ChartRef) × Memᴰ d (c ∷ cs) × (d.key ≡ key) × (d.url ≡ u)
      here g (inl t) = (c, Memᴰ.head refl, (eq_iff c.key key).0 t, ground (arith, g, t))
      here g (inr f) = absurd (ground (arith, g, f))

      found :
          (url_of key cs ≡ some u → (d : ChartRef) × Memᴰ d cs × (d.key ≡ key) × (d.url ≡ u))
          → (o : Option String) → url_of key cs ≡ o
          → (elim o [ some v ↦ some v | none ↦ if c.key == key then some c.url else none ]) ≡ some u
          → (d : ChartRef) × Memᴰ d (c ∷ cs) × (d.key ≡ key) × (d.url ≡ u)
      found rest (some v) e g = let (d, m, k, q) = rest (e ∙ g) in (d, Memᴰ.tail m, k, q)
      found rest none e g = here g (Bool-cases (c.key == key))

  url_of-elem :
      (key : String) (produced : List ChartRef)
      → url_of key produced ≡ none
      → elem key (chart_keys_of produced) ≡ false
  unfolding url_of chart_keys_of
  url_of-elem key [] h = refl
  url_of-elem key (c ∷ cs) h = ground (arith, url_of-elem key cs, h)

  -- A chart stands alone among those that were rendered.
  only_url-eq :
      (u : String) (produced : List ChartRef)
      → only_url produced ≡ some u
      → (c : ChartRef) × (produced ≡ c ∷ []) × (c.url ≡ u)
  unfolding only_url
  only_url-eq u [] h = absurd (ground (arith, h))
  only_url-eq u (c ∷ []) h = (c, refl, ground (arith, h))
  only_url-eq u (c ∷ d ∷ cs) h = absurd (ground (arith, h))

  only_url-none : (produced : List ChartRef) → only_url produced ≡ none → length produced ≢ 1
  unfolding only_url
  only_url-none [] h = λ e. absurd (omega (arith, e))
  only_url-none (c ∷ []) h = absurd (ground (arith, h))
  only_url-none (c ∷ d ∷ cs) h = λ e. absurd (omega (arith, e))

  -- What the text of an image comes to.
  abbrev pub Shown : List ChartRef → String → String → String → String → Type 0
  Shown produced match alt key s =
      ((c : ChartRef) × Memᴰ c produced
        × (s ≡ markdown alt c.url)
        × ((c.key ≡ key) ⊎ (produced ≡ c ∷ [])))
      ⊎ ((s ≡ match) × (elem key (chart_keys_of produced) ≡ false) × (length produced ≢ 1))

  choice-Shown :
      (produced : List ChartRef) (match alt key : String) (u o : Option String)
      → url_of key produced ≡ u
      → only_url produced ≡ o
      → Shown produced match alt key (elim u [
        | some canonical ↦ markdown alt canonical
        | none ↦ elim o [ some only ↦ markdown alt only | none ↦ match ]
      ])
  choice-Shown produced match alt key (some u) o h k =
      let (c, m, e, q) = url_of-Mem key u produced h in inl (c, m, ap (markdown alt) (sym q), inl e)
  choice-Shown produced match alt key none (some v) h k =
      let (c, e, q) = only_url-eq v produced k in
      inl (c, subst (λ cs. Memᴰ c cs) (sym e) (Memᴰ.head refl), ap (markdown alt) (sym q), inr e)
  choice-Shown produced match alt key none none h k =
      inr (refl, url_of-elem key produced h, only_url-none produced k)

  -- An image of an answer that matches the pattern comes out with the url of a chart that a tool
  -- rendered in this turn, one of the key that its url has or the only one there is; or it is left
  -- as it was, and then no chart of that key was rendered and the number of charts is not one.
  pub correct_image-Shown :
      (produced : List ChartRef) (match alt url : String)
      → Shown produced match alt
          (first_key (extract_chart_keys patterns url))
          (correct_image patterns produced (image_match match alt url))
  unfolding correct_image
  correct_image-Shown produced match alt url =
      choice-Shown produced match alt (first_key (extract_chart_keys patterns url))
        (url_of (first_key (extract_chart_keys patterns url)) produced) (only_url produced) refl
        refl
