-- ===== src/Bedrock/Chunks/Laws.antt =====
-- The tool uses of a stream, by the chunks of their blocks.
use ai_agent_go_service.Prelude.{
  ◌≡◌, ◌≢◌, refl, sym, subst, ap, ◌⊎◌, inl, inr, ◌==◌, eq_iff, Bool, true, false, ◌&&◌, List, [],
  ◌∷◌, ◌++◌, Option, none, some, Bool-cases, arith,
}
use ai_agent_go_service.Prelude.Int.{ℤ, pos, negsuc, eqb_ℤ}
use ai_agent_go_service.Agent.Types.{LlmToolUse, LlmEvent, tool_use_stop, other_kind}
use ai_agent_go_service.Bedrock.Chunks.{
  ContentBlockStart, ContentBlockDelta, Chunk, block_start, block_delta, block_stop, message_delta,
  other_chunk, Accum, lookup, delete, grow, add_input, close_block, apply_chunk,
}

-- Whether a chunk is about the tool use of a block.
abbrev pub touches : ℤ → Chunk → Bool
touches i (block_start v) = v.type == "tool_use" && eqb_ℤ i v.index
touches i (block_delta v) = v.type == "input_json_delta" && eqb_ℤ i v.index
touches i (block_stop j) = eqb_ℤ i j
touches i (message_delta s) = false
touches i other_chunk = false

-- The tool use of a block that has started and not stopped: its input is the partial texts since the
-- start, joined.
pub data Building : List Chunk → ℤ → LlmToolUse → Type 0 where
  started :
      (cs : List Chunk) (v : ContentBlockStart)
      → (v.type == "tool_use") ≡ true
      → Building
          (cs ++ block_start v ∷ [])
          v.index
          (record { id = v.id; name = v.name; input = "" })
  grown :
      {cs : List Chunk} {tu : LlmToolUse} (v : ContentBlockDelta)
      → (v.type == "input_json_delta") ≡ true
      → Building cs v.index tu
      → Building (cs ++ block_delta v ∷ []) v.index (grow v.partial_json tu)
  passed_by :
      {cs : List Chunk} {i : ℤ} {tu : LlmToolUse} (c : Chunk)
      → touches i c ≡ false
      → Building cs i tu
      → Building (cs ++ c ∷ []) i tu

-- A tool use whose block has stopped.
pub data Completed : List Chunk → LlmToolUse → Type 0 where
  stopped :
      {cs : List Chunk} {i : ℤ} {tu : LlmToolUse}
      → Building cs i tu
      → Completed (cs ++ block_stop i ∷ []) tu
  followed :
      {cs : List Chunk} {tu : LlmToolUse} (c : Chunk)
      → Completed cs tu
      → Completed (cs ++ c ∷ []) tu

eqb_ℤ→eq : (i j : ℤ) → eqb_ℤ i j ≡ true → i ≡ j
eqb_ℤ→eq (pos a) (pos b) h = ap pos (ground arith)
eqb_ℤ→eq (pos a) (negsuc b) h = absurd (ground arith)
eqb_ℤ→eq (negsuc a) (pos b) h = absurd (ground arith)
eqb_ℤ→eq (negsuc a) (negsuc b) h = ap negsuc (ground arith)

lookup-cons :
    (i j : ℤ) (t tu : LlmToolUse) (rest : Accum)
    → lookup i ((j, t) ∷ rest) ≡ some tu
    → ((i ≡ j) × (t ≡ tu)) ⊎ ((eqb_ℤ i j ≡ false) × (lookup i rest ≡ some tu))
unfolding lookup
lookup-cons i j t tu rest h = elim (Bool-cases (eqb_ℤ i j)) [
  | inl e ↦ inl (eqb_ℤ→eq i j e, (let h' = rw e at h in cc))
  | inr e ↦ inr (e, rw e at h)
]

eqb_ℤ-sym : (i j : ℤ) → eqb_ℤ i j ≡ false → eqb_ℤ j i ≡ false
eqb_ℤ-sym i j h = ground arith

lookup-kept :
    (i j k : ℤ) (t tu : LlmToolUse) (rest : Accum)
    → eqb_ℤ j k ≡ false
    → lookup i ((k, t) ∷ delete j rest) ≡ some tu
    → (lookup i (delete j rest) ≡ some tu → (eqb_ℤ i j ≡ false) × (lookup i rest ≡ some tu))
    → (eqb_ℤ i j ≡ false) × (lookup i ((k, t) ∷ rest) ≡ some tu)
unfolding lookup
lookup-kept i j k t tu rest e h ih = elim (Bool-cases (eqb_ℤ i k)) [
  | inl f ↦
      let n = subst (λ x. eqb_ℤ j x ≡ false) (sym (eqb_ℤ→eq i k f)) e in
      (eqb_ℤ-sym j i n, rw f (rw f at h))
  | inr f ↦ let (n, l) = ih (rw f at h) in (n, rw f l)
]

lookup-delete :
    (i j : ℤ) (tu : LlmToolUse) (accum : Accum)
    → lookup i (delete j accum) ≡ some tu
    → (eqb_ℤ i j ≡ false) × (lookup i accum ≡ some tu)
unfolding lookup delete
lookup-delete i j tu [] h = absurd (ground arith)
lookup-delete i j tu ((k, t) ∷ rest) h = elim (Bool-cases (eqb_ℤ j k)) [
  | inl e ↦
      let (n, l) = lookup-delete i j tu rest (rw e at h) in
      let f = subst (λ x. eqb_ℤ i x ≡ false) (eqb_ℤ→eq j k e) n in (n, rw f l)
  | inr e ↦ lookup-kept i j k t tu rest e (rw e at h) (lookup-delete i j tu rest)
]

-- After these chunks every open tool use is one that they built.
abbrev pub AllBuilt : List Chunk → Accum → Type 0
AllBuilt cs accum = (i : ℤ) (tu : LlmToolUse) → lookup i accum ≡ some tu → Building cs i tu

-- What a chunk leaves open, and the tool use that it completes.
pub record Steps (cs : List Chunk) (r : Accum × Option LlmEvent) : Type 0 where
  pub open_uses : AllBuilt cs r.0
  pub done : (tu : LlmToolUse) → r.1 ≡ some (tool_use_stop tu) → Completed cs tu

Building-moved :
    {cs : List Chunk} {i j : ℤ} {t tu : LlmToolUse}
    → i ≡ j
    → t ≡ tu
    → Building cs j t
    → Building cs i tu
Building-moved {cs} {i} {j} {t} {tu} p q b =
    subst (λ x. Building cs x tu) (sym p) (subst (λ x. Building cs j x) q b)

module _ (cs : List Chunk) (accum : Accum) (all : AllBuilt cs accum) where
  -- A chunk that is about no open tool use.
  passed-Steps :
      (c : Chunk) (o : Option LlmEvent)
      → ((i : ℤ) (tu : LlmToolUse) → lookup i accum ≡ some tu → touches i c ≡ false)
      → ((tu : LlmToolUse) → o ≢ some (tool_use_stop tu))
      → Steps (cs ++ c ∷ []) (accum, o)
  passed-Steps c o away silent = record {
    open_uses = λ i tu l. passed_by c (away i tu l) (all i tu l);
    done = λ tu e. absurd (silent tu e);
  }

  -- A tool use that the chunk opens, or adds to.
  put-Steps :
      (c : Chunk) (j : ℤ) (t : LlmToolUse)
      → Building (cs ++ c ∷ []) j t
      → ((i : ℤ) → eqb_ℤ i j ≡ false → touches i c ≡ false)
      → Steps (cs ++ c ∷ []) ((j, t) ∷ accum, some other_kind)
  put-Steps c j t b away = record {
    open_uses = λ i tu l. elim (lookup-cons i j t tu accum l) [
      | inl (p, q) ↦ Building-moved p q b
      | inr (n, l') ↦ passed_by c (away i n) (all i tu l')
    ];
    done = λ tu e. absurd (ground arith);
  }

  -- No open tool use has the index of a block that is not open.
  not_open :
      (i j : ℤ) (tu : LlmToolUse)
      → lookup j accum ≡ none
      → lookup i accum ≡ some tu
      → eqb_ℤ i j ≡ false
  not_open i j tu n l = elim (Bool-cases (eqb_ℤ i j)) [
    | inl e ↦
        absurd (let m = subst (λ x. lookup x accum ≡ some tu) (eqb_ℤ→eq i j e) l in ground arith)
    | inr e ↦ e
  ]

  add_input-Steps :
      (v : ContentBlockDelta) (o : Option LlmToolUse)
      → (v.type == "input_json_delta") ≡ true
      → lookup v.index accum ≡ o
      → Steps (cs ++ block_delta v ∷ []) (add_input v o accum)
  unfolding add_input
  add_input-Steps v none t l =
      passed-Steps (block_delta v) none (λ i tu l'. rw t (not_open i v.index tu l l'))
        (λ tu e. ground arith)
  add_input-Steps v (some tu) t l =
      put-Steps (block_delta v) v.index (grow v.partial_json tu) (grown v t (all v.index tu l))
        (λ i n. rw t n)

  close_block-Steps :
      (j : ℤ) (o : Option LlmToolUse)
      → lookup j accum ≡ o
      → Steps (cs ++ block_stop j ∷ []) (close_block j o accum)
  unfolding close_block
  close_block-Steps j none l =
      passed-Steps (block_stop j) none (λ i tu l'. not_open i j tu l l') (λ tu e. ground arith)
  close_block-Steps j (some tu) l = record {
    open_uses = λ i t l'.
        let (n, m) = lookup-delete i j t accum l' in passed_by (block_stop j) n (all i t m);
    done = λ t e.
        subst (Completed (cs ++ block_stop j ∷ [])) (let e' = e in cc) (stopped (all j tu l));
  }

  pub apply_chunk-Steps : (c : Chunk) → Steps (cs ++ c ∷ []) (apply_chunk c accum)
  unfolding apply_chunk
  apply_chunk-Steps (block_start v) = elim (Bool-cases (v.type == "tool_use")) [
    | inl t ↦ rw t (put-Steps (block_start v) v.index _ (started cs v t) (λ i n. rw t n))
    | inr f ↦ rw f (passed-Steps (block_start v) none (λ i tu l. rw f refl) (λ tu e. ground arith))
  ]
  apply_chunk-Steps (block_delta v) = elim (Bool-cases (v.type == "text_delta")) [
    | inl t ↦ rw t (
        passed-Steps (block_delta v) _
          (λ i tu l.
            let q : v.type ≡ "text_delta" = ground (arith, eq_iff v.type "text_delta") in rw q refl)
          (λ tu e. ground arith))
    | inr f ↦ rw f (elim (Bool-cases (v.type == "input_json_delta")) [
      | inl t ↦ rw t (add_input-Steps v (lookup v.index accum) t refl)
      | inr g ↦
          rw g (passed-Steps (block_delta v) none (λ i tu l. rw g refl) (λ tu e. ground arith))
    ])
  ]
  apply_chunk-Steps (block_stop j) = close_block-Steps j (lookup j accum) refl
  apply_chunk-Steps (message_delta s) = elim (Bool-cases (s == "")) [
    | inl t ↦ rw t (passed-Steps (message_delta s) none (λ i tu l. refl) (λ tu e. ground arith))
    | inr f ↦ rw f (passed-Steps (message_delta s) _ (λ i tu l. refl) (λ tu e. ground arith))
  ]
  apply_chunk-Steps other_chunk =
      passed-Steps other_chunk none (λ i tu l. refl) (λ tu e. ground arith)
