-- ===== src/Loader/Derive/Merge/Fates.antt =====
-- What becomes of a node and its prompt as the entries of the overlay are applied.
use ai_agent_go_service.Prelude.{
  String, ◌==◌, eq_iff, ◌≡◌, refl, sym, ap, ◌∙◌, subst, true, false, List, [], ◌∷◌, ok, elem, All,
  Bool-cases, Result-cases, ◌⊎◌, inl, inr, arith,
}
use mathlib.Core.List.{Memᴰ}
use mathlib.Core.List.Memᴰ
use ai_agent_go_service.Json.{
  text, Fields, remove, HasField, get_text, get_object, as_text, as_object,
}
use ai_agent_go_service.Loader.Derive.{deep_merge}
use ai_agent_go_service.Loader.Derive.Laws.{IsMap}
use ai_agent_go_service.Loader.Derive.Merge.{
  NodeMerge, node_id, or_empty, apply_entry, apply_entries,
}
use ai_agent_go_service.Loader.Derive.Merge.Prompts.{Supplies, entry, further}
use ai_agent_go_service.Loader.Derive.Merge.Settled.{
  config_of, prompt_of, Settled, merged-Settled, get-unmarked, IsMap-remove, id_of-merged, emptied,
  given, kept,
}
use ai_agent_go_service.Loader.Derive.Merge.Sources.{
  ids_of, Distinct, IdAt, elem-Mem, apart, merge_at-source, ids_of-merge_at, Applied,
  apply_entry-Applied, removed-grows, dropped, joined, added,
}

-- A node of the result: removed, or its prompt is empty, the overlay's, or that of the node before
-- where the overlay has none.
pub data Fate (key : String) (ons ms : List Fields) (removed : List String) (m' : Fields)
    : Type 0 where
  was_removed : elem (node_id m') removed ≡ true → Fate key ons ms removed m'
  was_emptied : (prompt_of key m' == "") ≡ true → Fate key ons ms removed m'
  was_given : Supplies (node_id m') key (prompt_of key m') ons → Fate key ons ms removed m'
  was_kept :
      (m : Fields)
      → Memᴰ m ms
      → node_id m' ≡ node_id m
      → prompt_of key m' ≡ prompt_of key m
      → ((s : String) → ¬ Supplies (node_id m') key s ons)
      → Fate key ons ms removed m'

Supplies-cases :
    {id key s : String} {on : Fields} {ons : List Fields}
    → Supplies id key s (on ∷ ons)
    → ((node_id on ≡ id) × HasField key (text s) (config_of on)) ⊎ Supplies id key s ons
Supplies-cases (entry e h) = inl (e, h)
Supplies-cases (further h) = inr h

-- An entry of another id supplies nothing.
none_further :
    {id key : String} {on : Fields} {ons : List Fields}
    → (id == node_id on) ≡ false
    → ((s : String) → ¬ Supplies id key s ons)
    → (s : String) → ¬ Supplies id key s (on ∷ ons)
none_further {id} {key} {on} f lacks s h = elim (Supplies-cases h) [
  | inl (e, i) ↦ ground (arith, eq_iff id (node_id on))
  | inr i ↦ lacks s i
]

module _ (base : List Fields) (key : String) (distinct : Distinct (ids_of base)) where
  pub unmarked-config : (on : Fields) → config_of (remove "$remove" on) ≡ config_of on
  unfolding get_object
  unmarked-config on = ap (λ v. or_empty (as_object v)) (get-unmarked "config" on refl)

  pub unmarked-id : (on : Fields) → node_id (remove "$remove" on) ≡ node_id on
  unfolding get_text
  unmarked-id on = ap as_text (get-unmarked "id" on refl)

  merged-id :
      (on : Fields) (m : Fields)
      → IsMap on
      → (node_id on == "") ≡ false
      → node_id (deep_merge m (remove "$remove" on)) ≡ node_id on
  merged-id on m d f =
      id_of-merged m (remove "$remove" on) (IsMap-remove "$remove" on d)
        (subst (λ x. (x == "") ≡ false) (sym (unmarked-id on)) f)
      ∙ unmarked-id on

  -- A node that an entry was merged into.
  joined-Fate :
      (on : Fields) (ons ms : List Fields) (removed : List String) (m m' : Fields)
      → Memᴰ m ms
      → node_id m ≡ node_id on
      → node_id m' ≡ node_id on
      → prompt_of key m' ≡ prompt_of key (deep_merge m (remove "$remove" on))
      → ((s : String) → ¬ Supplies (node_id m') key s ons)
      → Settled key
          (prompt_of key (deep_merge m (remove "$remove" on)))
          (prompt_of key m)
          (config_of on)
      → Fate key (on ∷ ons) ms removed m'
  joined-Fate on ons ms removed m m' i idm q e lacks (emptied x) =
      was_emptied (subst (λ p. (p == "") ≡ true) (sym e) x)
  joined-Fate on ons ms removed m m' i idm q e lacks (given h) =
      was_given (entry (sym q) (subst (λ p. HasField key (text p) (config_of on)) (sym e) h))
  joined-Fate on ons ms removed m m' i idm q e lacks (kept k n) =
      was_kept m i (q ∙ sym idm) (e ∙ k)
        (λ s h. elim (Supplies-cases h) [ inl (_, f) ↦ n s f | inr f ↦ lacks s f ])

  step-Fate :
      (on : Fields) (ons : List Fields) (st st1 : NodeMerge) (removed : List String) (m' : Fields)
      → IsMap on
      → ids_of st.merged ≡ ids_of base
      → ((x : String) → elem x st1.removed ≡ true → elem x removed ≡ true)
      → Applied base on st st1
      → Fate key ons st1.merged removed m'
      → Fate key (on ∷ ons) st.merged removed m'
  step-Fate on ons st st1 removed m' d same grows ap' (was_removed r) = was_removed r
  step-Fate on ons st st1 removed m' d same grows ap' (was_emptied r) = was_emptied r
  step-Fate on ons st st1 removed m' d same grows ap' (was_given r) = was_given (further r)
  step-Fate on ons st _ removed m' d same grows dropped (was_kept m1 i q e lacks) =
      elim (Bool-cases (node_id m' == node_id on)) [
        | inl c ↦ was_removed (
            grows (node_id m')
              (ground (arith, eq_iff (node_id on) (node_id m'), eq_iff (node_id m') (node_id on))))
        | inr c ↦ was_kept m1 i q e (none_further c lacks)
      ]
  step-Fate on ons st _ removed m' d same grows (added n) (was_kept m1 i q e lacks) =
      was_kept m1 i q e (
        none_further
          (apart (node_id m') (node_id on) (ids_of base)
            (subst (λ x. elem x (ids_of base) ≡ true) (sym q)
              (subst (λ is. elem (node_id m1) is ≡ true) same (elem-Mem m1 st.merged i)))
            n)
          lacks)
  step-Fate on ons st _ removed m' d same grows (joined k a f) (was_kept m1 i q e lacks) =
      elim (merge_at-source k st.merged (remove "$remove" on) m1 (node_id on)
        (subst Distinct (sym same) distinct) (subst (λ is. IdAt k is (node_id on)) (sym same) a)
        i) [
          | inl (j, ne) ↦
              was_kept m1 j q e
                (none_further (subst (λ x. (x == node_id on) ≡ false) (sym q) ne) lacks)
          | inr (m, j, idm, r) ↦
              joined-Fate on ons st.merged removed m m' j idm
                (q ∙ ap (λ x. node_id x) r ∙ merged-id on m d f) (e ∙ ap (λ x. prompt_of key x) r)
                lacks
                (subst (Settled key _ (prompt_of key m)) (unmarked-config on)
                  (merged-Settled key m (remove "$remove" on) (IsMap-remove "$remove" on d)))
        ]

  step-ids :
      (on : Fields) (st st1 : NodeMerge)
      → IsMap on
      → ids_of st.merged ≡ ids_of base
      → Applied base on st st1
      → ids_of st1.merged ≡ ids_of base
  step-ids on st _ d same dropped = same
  step-ids on st _ d same (added n) = same
  step-ids on st _ d same (joined k a f) =
      ids_of-merge_at k st.merged (remove "$remove" on) (node_id on)
        (subst (λ is. IdAt k is (node_id on)) (sym same) a) (λ m. merged-id on m d f)
      ∙ same

  pub apply_entries-Fate :
      (ons : List Fields) (st st' : NodeMerge) (m' : Fields)
      → All IsMap ons
      → ids_of st.merged ≡ ids_of base
      → apply_entries base ons st ≡ ok st'
      → Memᴰ m' st'.merged
      → Fate key ons st.merged st'.removed m'
  unfolding apply_entries
  apply_entries-Fate [] st st' m' d same h i =
      was_kept m' (subst (λ s. Memᴰ m' s.merged) (let e : st' ≡ st = cc in e) i) refl refl
        (λ s x. elim x [ ])
  apply_entries-Fate (on ∷ ons) st st' m' (d, ds) same h i =
      elim (Result-cases (apply_entry base on st)) [
        | inr (e, s) ↦ absurd (ground arith)
        | inl (st1, s) ↦
            (let a = apply_entry-Applied base on st st1 s in
              let rest : apply_entries base ons st1 ≡ ok st' = ground arith in
              step-Fate on ons st st1 st'.removed m' d same
                (λ x. removed-grows base ons st1 st' x rest) a
                (apply_entries-Fate ons st1 st' m' ds (step-ids on st st1 d same a) rest i))
      ]

  -- A node that is appended has the prompt of its own entry.
  pub apply_entries-appended :
      (ons : List Fields) (st st' : NodeMerge) (m' : Fields)
      → apply_entries base ons st ≡ ok st'
      → Memᴰ m' st'.appended
      → Memᴰ m' st.appended ⊎ ((on : Fields) × Memᴰ on ons × (m' ≡ remove "$remove" on))
  unfolding apply_entries
  apply_entries-appended [] st st' m' h i =
      inl (subst (λ s. Memᴰ m' s.appended) (let e : st' ≡ st = cc in e) i)
  apply_entries-appended (on ∷ ons) st st' m' h i = elim (Result-cases (apply_entry base on st)) [
    | inr (e, s) ↦ absurd (ground arith)
    | inl (st1, s) ↦ elim (apply_entries-appended ons st1 st' m' (ground arith) i) [
      | inr (o, j, e) ↦ inr (o, Memᴰ.tail j, e)
      | inl j ↦ step st1 (apply_entry-Applied base on st st1 s) j
    ]
  ]
    where
      step :
          (st1 : NodeMerge)
          → Applied base on st st1
          → Memᴰ m' st1.appended
          → Memᴰ m' st.appended ⊎ ((o : Fields) × Memᴰ o (on ∷ ons) × (m' ≡ remove "$remove" o))
      step _ dropped j = inl j
      step _ (joined k a f) j = inl j
      step _ (added n) j = elim (Memᴰ.append_cases st.appended j) [
        | inl k ↦ inl k
        | inr (Memᴰ.head e) ↦ inr (on, Memᴰ.head refl, e)
        | inr (Memᴰ.tail k) ↦ elim k [ ]
      ]
