-- ===== src/Loader/Derive/Merge/Inherited.antt =====
-- The prompts that the nodes of a merged document end up with: none is the base's.
use ai_agent_go_service.Prelude.{
  String, ◌==◌, ◌≡◌, refl, sym, ap, ◌∙◌, subst, true, false, List, [], ◌∷◌, ◌++◌, ok, elem, All,
  Bool-cases, Option-cases, Result-cases, ◌⊎◌, inl, inr, arith,
}
use mathlib.Core.List.{Memᴰ}
use mathlib.Core.List.Memᴰ
use ai_agent_go_service.Json.{text, Fields, get, remove, HasField, get_text}
use ai_agent_go_service.Loader.Derive.Laws.{IsMap}
use ai_agent_go_service.Loader.Derive.Merge.{
  NodeMerge, node_id, apply_entries, without, enforce_prompt_ownership, finish_nodes, guarded,
  merge_nodes,
}
use ai_agent_go_service.Loader.Derive.Merge.Prompts.{
  Supplies, entry, further, as_text-some, get-HasField, OwnsPrompt, merge_nodes-owned,
}
use ai_agent_go_service.Loader.Derive.Merge.Settled.{config_of, prompt_of}
use ai_agent_go_service.Loader.Derive.Merge.Sources.{ids_of, Distinct}
use ai_agent_go_service.Loader.Derive.Merge.Fates.{
  Fate, was_removed, was_emptied, was_given, was_kept, unmarked-config, unmarked-id,
  apply_entries-Fate, apply_entries-appended,
}

cons-Mem :
    (removed : List String) (n m : Fields) (ms ns : List Fields)
    → elem (node_id n) removed ≡ false
    → (Memᴰ m ms → Memᴰ m ns × (elem (node_id m) removed ≡ false))
    → Memᴰ m (n ∷ ms)
    → Memᴰ m (n ∷ ns) × (elem (node_id m) removed ≡ false)
cons-Mem removed n m ms ns r rest (Memᴰ.head e) =
    (Memᴰ.head e, subst (λ x. elem (node_id x) removed ≡ false) (sym e) r)
cons-Mem removed n m ms ns r rest (Memᴰ.tail i) = let (j, f) = rest i in (Memᴰ.tail j, f)

without-Mem :
    (removed : List String) (ns : List Fields) (m : Fields)
    → Memᴰ m (without removed ns)
    → Memᴰ m ns × (elem (node_id m) removed ≡ false)
unfolding without
without-Mem removed [] m i = elim i [ ]
without-Mem removed (n ∷ ns) m i = elim (Bool-cases (elem (node_id n) removed)) [
  | inl r ↦ (let (j, f) = without-Mem removed ns m (rw r at i) in (Memᴰ.tail j, f))
  | inr r ↦
      cons-Mem removed n m (without removed ns) ns r (λ j. without-Mem removed ns m j) (rw r at i)
]

finish_nodes-nodes :
    (overlay : List Fields) (st : NodeMerge) (nodes : List Fields) (removed : List String)
    → finish_nodes overlay st ≡ ok (nodes, removed)
    → without st.removed st.merged ++ st.appended ≡ nodes
unfolding finish_nodes guarded
finish_nodes-nodes overlay st nodes removed h =
    elim (Option-cases
      (enforce_prompt_ownership (without st.removed st.merged ++ st.appended) overlay)) [
        | inl n ↦ ground arith
        | inr (e, s) ↦ absurd (ground arith)
      ]

-- The prompt that a node ends up with is empty or from an entry of its id in the overlay, which has
-- one that is not empty.
pub OwnPrompt : List Fields → String → Fields → Type 0
OwnPrompt overlay key n =
    ((prompt_of key n == "") ≡ true ⊎ Supplies (node_id n) key (prompt_of key n) overlay)
    × OwnsPrompt overlay key n

module _ (base overlay : List Fields) (key : String) (n : Fields)
    (distinct : Distinct (ids_of base)) (maps : All IsMap overlay)
    (owns : OwnsPrompt overlay key n) where
  Fate-OwnPrompt :
      (removed : List String)
      → elem (node_id n) removed ≡ false
      → Fate key overlay base removed n
      → OwnPrompt overlay key n
  unfolding OwnPrompt OwnsPrompt
  Fate-OwnPrompt removed f (was_removed r) = absurd (ground arith)
  Fate-OwnPrompt removed f (was_emptied e) = (inl e, owns)
  Fate-OwnPrompt removed f (was_given g) = (inr g, owns)
  Fate-OwnPrompt removed f (was_kept m i q e lacks) = absurd (let (s, _, h) = owns in lacks s h)

  Mem-Supplies :
      (on : Fields) (ons : List Fields)
      → Memᴰ on ons
      → (prompt_of key on == "") ≡ false
      → Supplies (node_id on) key (prompt_of key on) ons
  unfolding get_text
  Mem-Supplies on [] i f = elim i [ ]
  Mem-Supplies on (o ∷ ons) (Memᴰ.tail i) f = further (Mem-Supplies on ons i f)
  Mem-Supplies on (o ∷ ons) (Memᴰ.head e) f = entry (ap (λ x. node_id x) (sym e)) (
      subst (λ x. HasField key (text (prompt_of key on)) (config_of x)) e
        (get-HasField key (text (prompt_of key on)) (config_of on)
          (as_text-some (get key (config_of on)) f)))

  appended-OwnPrompt :
      (on : Fields) → Memᴰ on overlay → n ≡ remove "$remove" on → OwnPrompt overlay key n
  unfolding OwnPrompt
  appended-OwnPrompt on i e =
      let p =
        ap (λ x. prompt_of key x) e ∙ ap (get_text key) (unmarked-config base key distinct on) in
      let q = ap (λ x. node_id x) e ∙ unmarked-id base key distinct on in
      elim (Bool-cases (prompt_of key n == "")) [
        | inl c ↦ (inl c, owns)
        | inr c ↦ (
          inr (
              subst (λ x. Supplies x key (prompt_of key n) overlay) (sym q)
                (subst (λ x. Supplies (node_id on) key x overlay) (sym p)
                  (Mem-Supplies on overlay i (subst (λ x. (x == "") ≡ false) p c)))),
          owns,
        )
      ]

  merged-OwnPrompt :
      (nodes : List Fields) (removed : List String)
      → merge_nodes base overlay ≡ ok (nodes, removed)
      → Memᴰ n nodes
      → OwnPrompt overlay key n
  unfolding merge_nodes
  merged-OwnPrompt nodes removed h i =
      let start : NodeMerge = record { merged = base; removed = []; appended = [] } in
      elim (Result-cases (apply_entries base overlay start)) [
        | inr (e, s) ↦ absurd (ground arith)
        | inl (st, s) ↦
            elim (Memᴰ.append_cases (without st.removed st.merged) (
              subst (λ ns. Memᴰ n ns)
                (sym (finish_nodes-nodes overlay st nodes removed (ground arith))) i)) [
                  | inl j ↦
                      (let (k, f) = without-Mem st.removed st.merged n j in
                        Fate-OwnPrompt st.removed f
                          (apply_entries-Fate base key distinct overlay start st n maps refl s k))
                  | inr j ↦ elim (apply_entries-appended base key distinct overlay start st n s j) [
                    | inl k ↦ elim k [ ]
                    | inr (on, k, e) ↦ appended-OwnPrompt on k e
                  ]
                ]
      ]

-- If a derived workflow's nodes merge, where no two nodes of the base have one id and each entry of
-- the derived file has each key once, then no agent among them inherits a prompt from the base: its
-- fixed prompt, and its flexible prompt, is the text of an entry for its id in the derived file
-- itself, or empty, and the derived file has an entry for that id whose prompt is not empty.
pub merge_nodes-OwnPrompt :
    (base overlay nodes : List Fields) (removed : List String) (n : Fields)
    → Distinct (ids_of base)
    → All IsMap overlay
    → merge_nodes base overlay ≡ ok (nodes, removed)
    → Memᴰ n nodes
    → get_text "type" n ≡ "ai/agent"
    → OwnPrompt overlay "systemMessageFixed" n × OwnPrompt overlay "systemMessageFlexible" n
merge_nodes-OwnPrompt base overlay nodes removed n distinct maps h i t =
    let (fixed, flexible) = merge_nodes-owned base overlay nodes removed n h i t in
    (
      merged-OwnPrompt base overlay "systemMessageFixed" n distinct maps fixed nodes removed h i,
      merged-OwnPrompt base overlay "systemMessageFlexible" n distinct maps flexible nodes removed h
          i,
    )
