-- ===== src/Loader/Derive/Merge/Connections.antt =====
-- The connections of a merged document.
use ai_agent_go_service.Prelude.{
  String, ◌==◌, eq_iff, eq_refl, ◌≡◌, refl, sym, ap, subst, true, false, List, [], ◌∷◌, ◌++◌,
  Option, some, none, ok, elem, Bool-cases, Option-cases, Result-cases, ◌⊎◌, inl, inr, arith,
}
use mathlib.Core.List.{Memᴰ}
use mathlib.Core.List.Memᴰ
use ai_agent_go_service.Json.{Fields, get_text}
use ai_agent_go_service.Loader.Derive.Merge.{
  node_id, endpoint, conn_key, has_node, is_gone, touches_removed, keep_base, keep_unless, keys_of,
  add_overlay, merge_connections,
}

-- A node that the merge kept has this id.
pub data IsPresent (nodes : List Fields) (removed : List String) (id : String) : Type 0 where
  present :
      {n : Fields}
      → elem id removed ≡ false
      → Memᴰ n nodes
      → node_id n ≡ id
      → IsPresent nodes removed id

has_node-Mem :
    (id : String) (nodes : List Fields)
    → has_node id nodes ≡ true
    → (n : Fields) × Memᴰ n nodes × (node_id n ≡ id)
unfolding has_node
has_node-Mem id [] h = absurd (ground arith)
has_node-Mem id (n ∷ ns) h = elim (Bool-cases (node_id n == id)) [
  | inl c ↦ (n, Memᴰ.head refl, ground (arith, eq_iff (node_id n) id))
  | inr c ↦ (let (m, i, e) = has_node-Mem id ns (ground arith) in (m, Memᴰ.tail i, e))
]

is_gone-IsPresent :
    (nodes : List Fields) (removed : List String) (id : String)
    → is_gone nodes removed id ≡ false
    → IsPresent nodes removed id
unfolding is_gone
is_gone-IsPresent nodes removed id h = elim (Bool-cases (elem id removed)) [
  | inl r ↦ absurd (ground arith)
  | inr r ↦ elim (Bool-cases (has_node id nodes)) [
    | inr m ↦ absurd (ground arith)
    | inl m ↦ (let (n, i, e) = has_node-Mem id nodes m in present r i e)
  ]
]

-- Both ends of a connection are kept nodes.
pub Joins : List Fields → List String → Fields → Type 0
Joins nodes removed c =
    IsPresent nodes removed (get_text "node" (endpoint "from" c))
    × IsPresent nodes removed (get_text "node" (endpoint "to" c))

touches_removed-Joins :
    (nodes : List Fields) (removed : List String) (c : Fields)
    → touches_removed nodes removed c ≡ none
    → Joins nodes removed c
unfolding touches_removed Joins
touches_removed-Joins nodes removed c h =
    let f = get_text "node" (endpoint "from" c) in
    let t = get_text "node" (endpoint "to" c) in
    elim (Bool-cases (is_gone nodes removed f)) [
      | inl a ↦ absurd (ground arith)
      | inr a ↦ elim (Bool-cases (is_gone nodes removed t)) [
        | inl b ↦ absurd (ground arith)
        | inr b ↦ (is_gone-IsPresent nodes removed f a, is_gone-IsPresent nodes removed t b)
      ]
    ]

keep_unless-Mem :
    (o : Option String) (d c : Fields) (cs : List Fields)
    → Memᴰ c (keep_unless o d cs)
    → ((d ≡ c) × (o ≡ none)) ⊎ Memᴰ c cs
unfolding keep_unless
keep_unless-Mem none d c cs (Memᴰ.head e) = inl (sym e, refl)
keep_unless-Mem none d c cs (Memᴰ.tail i) = inr i
keep_unless-Mem (some n) d c cs i = inr i

keep_base-Joins :
    (nodes : List Fields) (removed : List String) (cs : List Fields) (c : Fields)
    → Memᴰ c (keep_base nodes removed cs)
    → Joins nodes removed c
unfolding keep_base
keep_base-Joins nodes removed [] c i = elim i [ ]
keep_base-Joins nodes removed (d ∷ cs) c i =
    elim (keep_unless-Mem (touches_removed nodes removed d) d c (keep_base nodes removed cs) i) [
      | inl (e, n) ↦ subst (Joins nodes removed) e (touches_removed-Joins nodes removed d n)
      | inr j ↦ keep_base-Joins nodes removed cs c j
    ]

-- The step at a connection of the overlay that the loop accepts.
data Step (nodes : List Fields) (removed seen : List String) (c : Fields) (cs out : List Fields)
    : Type 0 where
  known :
      elem (conn_key c) seen ≡ true
      → add_overlay nodes removed seen cs ≡ ok out
      → Step nodes removed seen c cs out
  fresh :
      (out' : List Fields)
      → out ≡ c ∷ out'
      → add_overlay nodes removed (conn_key c ∷ seen) cs ≡ ok out'
      → Step nodes removed seen c cs out

add_overlay-Step :
    (nodes : List Fields) (removed seen : List String) (c : Fields) (cs out : List Fields)
    → add_overlay nodes removed seen (c ∷ cs) ≡ ok out
    → (touches_removed nodes removed c ≡ none) × Step nodes removed seen c cs out
unfolding add_overlay
add_overlay-Step nodes removed seen c cs out h =
    elim (Option-cases (touches_removed nodes removed c)) [
      | inr (n, s) ↦ absurd (ground arith)
      | inl n ↦ elim (Bool-cases (elem (conn_key c) seen)) [
        | inl k ↦ (n, known k (ground arith))
        | inr k ↦ elim (Result-cases (add_overlay nodes removed (conn_key c ∷ seen) cs)) [
          | inr (e, s) ↦ absurd (ground arith)
          | inl (out', s) ↦ (n, fresh out' (ground arith) s)
        ]
      ]
    ]

add_overlay-Joins :
    (nodes : List Fields) (removed seen : List String) (cs out : List Fields) (c : Fields)
    → add_overlay nodes removed seen cs ≡ ok out
    → Memᴰ c out
    → Joins nodes removed c
unfolding add_overlay
add_overlay-Joins nodes removed seen [] [] c h i = elim i [ ]
add_overlay-Joins nodes removed seen [] (o ∷ out) c h i = absurd (ground arith)
add_overlay-Joins nodes removed seen (d ∷ cs) out c h i =
    let (n, st) = add_overlay-Step nodes removed seen d cs out h in
    elim st [
      | known k r ↦ add_overlay-Joins nodes removed seen cs out c r i
      | fresh out' e r ↦ elim (Memᴰ.cases_cons (subst (Memᴰ c) e i)) [
        | inl q ↦ subst (Joins nodes removed) (sym q) (touches_removed-Joins nodes removed d n)
        | inr j ↦ add_overlay-Joins nodes removed (conn_key d ∷ seen) cs out' c r j
      ]
    ]

add_overlay-keys :
    (nodes : List Fields) (removed seen : List String) (cs out : List Fields) (c : Fields)
    → add_overlay nodes removed seen cs ≡ ok out
    → Memᴰ c cs
    → (elem (conn_key c) seen ≡ true) ⊎ (elem (conn_key c) (keys_of out) ≡ true)
unfolding add_overlay keys_of
add_overlay-keys nodes removed seen [] out c h i = elim i [ ]
add_overlay-keys nodes removed seen (d ∷ cs) out c h i =
    let (n, st) = add_overlay-Step nodes removed seen d cs out h in
    elim st [
      | known k r ↦ elim (Memᴰ.cases_cons i) [
        | inl q ↦ inl (subst (λ x. elem (conn_key x) seen ≡ true) (sym q) k)
        | inr j ↦ add_overlay-keys nodes removed seen cs out c r j
      ]
      | fresh out' e r ↦ elim (Memᴰ.cases_cons i) [
        | inl q ↦ inr (ground (arith, eq_refl (conn_key c), ap conn_key q))
        | inr j ↦ elim (add_overlay-keys nodes removed (conn_key d ∷ seen) cs out' c r j) [
          | inr b ↦ inr (ground arith)
          | inl b ↦ elim (Bool-cases (conn_key d == conn_key c)) [
            | inl z ↦ inr (ground arith)
            | inr z ↦ inl (ground arith)
          ]
        ]
      ]
    ]

mem-append {ℓ} : {A : Type ℓ} (xs ys : List A) (a : A) → Memᴰ a (xs ++ ys) → Memᴰ a xs ⊎ Memᴰ a ys
mem-append [] ys a i = inr i
mem-append (x ∷ xs) ys a (Memᴰ.head e) = inl (Memᴰ.head e)
mem-append (x ∷ xs) ys a (Memᴰ.tail i) = elim (mem-append xs ys a i) [
  | inl j ↦ inl (Memᴰ.tail j)
  | inr j ↦ inr j
]

elem-keys_append :
    (xs ys : List Fields) (k : String)
    → (elem k (keys_of xs) ≡ true) ⊎ (elem k (keys_of ys) ≡ true)
    → elem k (keys_of (xs ++ ys)) ≡ true
unfolding keys_of
elem-keys_append [] ys k (inl h) = absurd (ground arith)
elem-keys_append [] ys k (inr h) = h
elem-keys_append (x ∷ xs) ys k (inl h) = elim (Bool-cases (conn_key x == k)) [
  | inl c ↦ ground arith
  | inr c ↦ ground (arith, elem-keys_append xs ys k (inl (ground arith)))
]
elem-keys_append (x ∷ xs) ys k (inr h) = ground (arith, elem-keys_append xs ys k (inr h))

merged_parts :
    (base overlay nodes out : List Fields) (removed : List String)
    → merge_connections base overlay nodes removed ≡ ok out
    → (added : List Fields) × (add_overlay nodes removed
          (keys_of (keep_base nodes removed base))
          overlay
        ≡ ok added)
      × (out ≡ keep_base nodes removed base ++ added)
unfolding merge_connections
merged_parts base overlay nodes out removed h =
    let kept = keep_base nodes removed base in
    elim (Result-cases (add_overlay nodes removed (keys_of kept) overlay)) [
      | inr (e, s) ↦ absurd (ground arith)
      | inl (added, s) ↦ (added, s, ground arith)
    ]

-- Both ends of every connection of a merged document are nodes of it that were not removed.
pub merge_connections-Joins :
    (base overlay nodes out : List Fields) (removed : List String) (c : Fields)
    → merge_connections base overlay nodes removed ≡ ok out
    → Memᴰ c out
    → Joins nodes removed c
merge_connections-Joins base overlay nodes out removed c h i =
    let kept = keep_base nodes removed base in
    let (added, s, e) = merged_parts base overlay nodes out removed h in
    elim (mem-append kept added c (subst (Memᴰ c) e i)) [
      | inl j ↦ keep_base-Joins nodes removed base c j
      | inr j ↦ add_overlay-Joins nodes removed (keys_of kept) overlay added c s j
    ]

-- Every connection of a derived workflow that merges is there in the merged document, up to its
-- four names: none is lost.
pub merge_connections-keys :
    (base overlay nodes out : List Fields) (removed : List String) (c : Fields)
    → merge_connections base overlay nodes removed ≡ ok out
    → Memᴰ c overlay
    → elem (conn_key c) (keys_of out) ≡ true
merge_connections-keys base overlay nodes out removed c h i =
    let kept = keep_base nodes removed base in
    let (added, s, e) = merged_parts base overlay nodes out removed h in
    subst (λ x. elem (conn_key c) (keys_of x) ≡ true) (sym e)
      (elem-keys_append kept added (conn_key c)
        (add_overlay-keys nodes removed (keys_of kept) overlay added c s i))
