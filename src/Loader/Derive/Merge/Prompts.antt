-- ===== src/Loader/Derive/Merge/Prompts.antt =====
-- Where the prompts of the agents in a merged document come from.
use ai_agent_go_service.Prelude.{
  String, ◌==◌, eq_iff, ◌≡◌, refl, subst, true, false, List, [], ◌∷◌, ◌++◌, Option, some, none, ok,
  if◌then◌else◌, Bool-cases, Option-cases, Result-cases, ◌⊎◌, inl, inr, arith,
}
use mathlib.Core.List.{Memᴰ}
use ai_agent_go_service.Json.{
  Value, null, boolean, number, text, array, object, Fields, no_fields, field, get, HasField, first,
  later, get_text, get_object, as_text,
}
use ai_agent_go_service.Loader.Derive.Laws.{deep_merge-text}
use ai_agent_go_service.Loader.Derive.Merge.{
  NodeMerge, node_id, or_empty, add_config, prompts_of, owns_prompts, without,
  enforce_prompt_ownership, guarded, finish_nodes, apply_entries, merge_nodes,
}

-- Some entry of this id has a configuration with this text under this key.
pub data Supplies (id key s : String) : List Fields → Type 0 where
  entry :
      {on : Fields} {ons : List Fields}
      → node_id on ≡ id
      → HasField key (text s) (or_empty (get_object "config" on))
      → Supplies id key s (on ∷ ons)
  further : {on : Fields} {ons : List Fields} → Supplies id key s ons → Supplies id key s (on ∷ ons)

pub get-HasField : (k : String) (v : Value) (m : Fields) → get k m ≡ some v → HasField k v m
unfolding get
get-HasField k v no_fields h = absurd (ground arith)
get-HasField k v (field l u m) h = elim (Bool-cases (l == k)) [
  | inl c ↦
      (let e : l ≡ k = ground (arith, eq_iff l k) in
        let d : u ≡ v = ground arith in
        subst (λ x. HasField x v (field l u m)) e (subst (λ x. HasField l x (field l u m)) d first))
  | inr c ↦ later (get-HasField k v m (ground arith))
]

add_config-text :
    (found : Option Fields) (cfg : Fields) (k s : String)
    → get k (add_config found cfg) ≡ some (text s)
    → (get k (or_empty found) ≡ some (text s)) ⊎ HasField k (text s) cfg
unfolding add_config
add_config-text none cfg k s h = inr (get-HasField k (text s) cfg h)
add_config-text (some prev) cfg k s h = deep_merge-text prev cfg k s h

prompts_of-Supplies :
    (overlay : List Fields) (id : String) (found : Option Fields) (k s : String)
    → get k (or_empty (prompts_of overlay id found)) ≡ some (text s)
    → (get k (or_empty found) ≡ some (text s)) ⊎ Supplies id k s overlay
unfolding prompts_of
prompts_of-Supplies [] id found k s h = inl h
prompts_of-Supplies (on ∷ ons) id found k s h =
    let cfg = or_empty (get_object "config" on) in
    let found' = if node_id on == id then some (add_config found cfg) else found in
    elim (prompts_of-Supplies ons id found' k s h) [
      | inr o ↦ inr (further o)
      | inl g ↦ elim (Bool-cases (node_id on == id)) [
        | inr c ↦ inl (ground arith)
        | inl c ↦ elim (add_config-text found cfg k s (ground arith)) [
          | inl o ↦ inl o
          | inr i ↦ inr (entry (ground (arith, eq_iff (node_id on) id)) i)
        ]
      ]
    ]

-- The overlay itself gives this prompt of a node, and it is not empty.
unfoldable pub OwnsPrompt : List Fields → String → Fields → Type 0
OwnsPrompt overlay key n = (s : String) × ((s == "") ≡ false) × Supplies (node_id n) key s overlay

pub as_text-some : (o : Option Value) → (as_text o == "") ≡ false → o ≡ some (text (as_text o))
unfolding as_text
as_text-some (some (text s)) h = refl
as_text-some (some null) h = absurd (ground arith)
as_text-some (some (boolean b)) h = absurd (ground arith)
as_text-some (some (number b)) h = absurd (ground arith)
as_text-some (some (array b)) h = absurd (ground arith)
as_text-some (some (object b)) h = absurd (ground arith)
as_text-some none h = absurd (ground arith)

owned :
    (overlay : List Fields) (n : Fields) (key : String)
    → (get_text key (or_empty (prompts_of overlay (node_id n) none)) == "") ≡ false
    → OwnsPrompt overlay key n
unfolding OwnsPrompt get_text get
owned overlay n key h =
    let cfg = or_empty (prompts_of overlay (node_id n) none) in
    let e = as_text-some (get key cfg) h in
    elim (prompts_of-Supplies overlay (node_id n) none key (get_text key cfg) e) [
      | inl a ↦ absurd (ground arith)
      | inr s ↦ (get_text key cfg, h, s)
    ]

enforce-owned :
    (ns overlay : List Fields) (n : Fields)
    → enforce_prompt_ownership ns overlay ≡ none
    → Memᴰ n ns
    → get_text "type" n ≡ "ai/agent"
    → owns_prompts overlay n ≡ true
unfolding enforce_prompt_ownership
enforce-owned [] overlay n h i t = elim i [ ]
enforce-owned (m ∷ ns) overlay n h (Memᴰ.head e) t = elim (Bool-cases (owns_prompts overlay m)) [
  | inl o ↦ ground arith
  | inr o ↦ absurd (ground (arith, eq_iff (get_text "type" m) "ai/agent"))
]
enforce-owned (m ∷ ns) overlay n h (Memᴰ.tail i) t =
    let rest : enforce_prompt_ownership ns overlay ≡ none =
      elim (Bool-cases (get_text "type" m == "ai/agent")) [
        | inr c ↦ ground arith
        | inl c ↦ elim (Bool-cases (owns_prompts overlay m)) [
          | inl o ↦ ground arith
          | inr o ↦ absurd (ground arith)
        ]
      ] in
    enforce-owned ns overlay n rest i t

finish_nodes-enforced :
    (overlay : List Fields) (st : NodeMerge) (nodes : List Fields) (removed : List String)
    → finish_nodes overlay st ≡ ok (nodes, removed)
    → enforce_prompt_ownership nodes overlay ≡ none
unfolding finish_nodes guarded
finish_nodes-enforced overlay st nodes removed h =
    let out = without st.removed st.merged ++ st.appended in
    elim (Option-cases (enforce_prompt_ownership out overlay)) [
      | inl n ↦ ground arith
      | inr (e, s) ↦ absurd (ground arith)
    ]

-- If a derived workflow's nodes merge, the derived file itself has for every agent among them an entry
-- of that id with a fixed prompt, and one with a flexible prompt, that are not empty.
pub merge_nodes-owned :
    (base overlay nodes : List Fields) (removed : List String) (n : Fields)
    → merge_nodes base overlay ≡ ok (nodes, removed)
    → Memᴰ n nodes
    → get_text "type" n ≡ "ai/agent"
    → OwnsPrompt overlay "systemMessageFixed" n × OwnsPrompt overlay "systemMessageFlexible" n
unfolding merge_nodes owns_prompts
merge_nodes-owned base overlay nodes removed n h i t =
    let start : NodeMerge = record { merged = base; removed = []; appended = [] } in
    elim (Result-cases (apply_entries base overlay start)) [
      | inr (e, s) ↦ absurd (ground arith)
      | inl (st, s) ↦
          (let f = finish_nodes-enforced overlay st nodes removed (ground arith) in
            let o = enforce-owned nodes overlay n f i t in
            (
              owned overlay n "systemMessageFixed" (ground arith),
              owned overlay n "systemMessageFlexible" (ground arith),
            ))
    ]
