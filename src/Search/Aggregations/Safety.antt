-- ===== src/Search/Aggregations/Safety.antt =====
-- What an accepted aggregation tree can hold.
use ai_agent_go_service.Prelude.{
  ℕ, suc, ◌+◌, ◌≤◌, String, ◌==◌, ◌≡◌, refl, true, false, Option, some, none, ok, ltb, Bool-cases,
  Option-cases, Result-cases, inl, inr, arith,
}
use ai_agent_go_service.Json.{
  Value, null, boolean, number, text, array, object, Fields, no_fields, field, HasField, first,
  later,
}
use ai_agent_go_service.Search.Aggregations.{
  AggError, max_agg_depth, is_allowed, is_sub_key, limited, counted, then_zero, or_next, key_types,
  walk_named, walk_one, walk_body, walk_sub, walk_aggs, Codec, marshaled, checked, inner, is_blank,
  normalize_aggregations,
}

-- `Occurs b d k aggs`: the type k stands at depth d of a tree whose top is at depth b.
pub data Occurs : ℕ → ℕ → String → Fields → Type 0 where
  here :
      {b : ℕ} {name k : String} {v : Value} {body aggs : Fields}
      → HasField name (object body) aggs
      → HasField k v body
      → is_sub_key k ≡ false
      → (k == "meta") ≡ false
      → Occurs b b k aggs
  below :
      {b d : ℕ} {name key k : String} {body sub aggs : Fields}
      → HasField name (object body) aggs
      → HasField key (object sub) body
      → is_sub_key key ≡ true
      → Occurs (suc b) d k sub
      → Occurs b d k aggs

walk_one_of_field :
    {name : String} {v : Value} {aggs : Fields} (depth : ℕ)
    → HasField name v aggs
    → walk_named depth aggs ≡ none
    → walk_one depth name v ≡ none
unfolding walk_named or_next
walk_one_of_field depth (first {k} {v} {fs}) h = elim (Option-cases (walk_one depth k v)) [
  | inl n ↦ n
  | inr (e, s) ↦ absurd (ground arith)
]
walk_one_of_field depth (later {k} {l} {v} {u} {fs} i) h =
    elim (Option-cases (walk_one depth l u)) [
      | inl n ↦ walk_one_of_field depth i (ground arith)
      | inr (e, s) ↦ absurd (ground arith)
    ]

key_types_of_field :
    {key : String} {v : Value} {body : Fields} (depth : ℕ) (name : String) (types n : ℕ)
    → HasField key v body
    → walk_body depth name body types ≡ ok n
    → (m : ℕ) × (key_types name key (walk_sub depth name v) ≡ ok m)
unfolding walk_named
key_types_of_field depth name types n (first {k} {v} {fs}) h =
    elim (Result-cases (key_types name k (walk_sub depth name v))) [
      | inl r ↦ r
      | inr (e, s) ↦ absurd (ground arith)
    ]
key_types_of_field depth name types n (later {k} {l} {v} {u} {fs} i) h =
    elim (Result-cases (key_types name l (walk_sub depth name u))) [
      | inl (m, s) ↦ key_types_of_field depth name (types + m) n i (ground arith)
      | inr (e, s) ↦ absurd (ground arith)
    ]

-- The body of an accepted aggregation was walked to its end.
body_of_field :
    {name : String} {body aggs : Fields} (depth : ℕ)
    → HasField name (object body) aggs
    → walk_named depth aggs ≡ none
    → (n : ℕ) × (walk_body depth name body 0 ≡ ok n)
unfolding walk_named counted
body_of_field {name} {body} depth i h =
    let w = walk_one_of_field depth i h in
    elim (Result-cases (walk_body depth name body 0)) [
      | inl r ↦ r
      | inr (e, s) ↦ absurd (ground arith)
    ]

key_types-allowed :
    (name k : String) (r : Option AggError) (m : ℕ)
    → is_sub_key k ≡ false
    → (k == "meta") ≡ false
    → key_types name k r ≡ ok m
    → is_allowed k ≡ true
unfolding key_types
key_types-allowed name k r m s t h = elim (Bool-cases (is_allowed k)) [
  | inl a ↦ a
  | inr a ↦ absurd (ground arith)
]

key_types-sub :
    (name key : String) (r : Option AggError) (m : ℕ)
    → is_sub_key key ≡ true
    → key_types name key r ≡ ok m
    → r ≡ none
unfolding key_types then_zero
key_types-sub name key none m s h = refl
key_types-sub name key (some e) m s h = absurd (ground arith)

limited-none :
    (depth : ℕ) (r : Option AggError)
    → limited depth r ≡ none
    → (depth ≤ max_agg_depth) × (r ≡ none)
unfolding limited
limited-none depth none h = elim (Bool-cases (ltb max_agg_depth depth)) [
  | inl a ↦ absurd (ground arith)
  | inr a ↦ (ground arith, refl)
]
limited-none depth (some e) h = absurd (ground arith)

Occurs-safe :
    {b d : ℕ} {k : String} {aggs : Fields}
    → Occurs b d k aggs
    → b ≤ max_agg_depth
    → walk_named b aggs ≡ none
    → (is_allowed k ≡ true) × (d ≤ max_agg_depth)
unfolding walk_named
Occurs-safe (here {b} {name} {k} {v} i j s t) le h =
    let (n, w) = body_of_field b i h in
    let (m, u) = key_types_of_field b name 0 n j w in
    (key_types-allowed name k (walk_sub b name v) m s t u, le)
Occurs-safe (below {b} {d} {name} {key} {k} {body} {sub} i j s o) le h =
    let (n, w) = body_of_field b i h in
    let (m, u) = key_types_of_field b name 0 n j w in
    let (le', h') =
      limited-none (suc b) (walk_named (suc b) sub)
        (key_types-sub name key (walk_sub b name (object sub)) m s u) in
    Occurs-safe o le' h'

-- In a tree that the walk accepts, every aggregation type, at any depth, is on the list, and
-- none stands deeper than ten levels.
pub walk_aggs-safe :
    {d : ℕ} {k : String} (aggs : Fields)
    → walk_aggs 1 aggs ≡ none
    → Occurs 1 d k aggs
    → (is_allowed k ≡ true) × (d ≤ max_agg_depth)
unfolding walk_aggs
walk_aggs-safe aggs h o = let (le, h') = limited-none 1 (walk_named 1 aggs) h in Occurs-safe o le h'

-- The serial form of a tree that the walk accepts.
pub IsSent : Codec → String → Type 0
IsSent codec out =
    (aggs : Fields) × (Codec.marshal codec aggs ≡ some out) × (walk_aggs 1 aggs ≡ none)

module _ (codec : Codec) where
  open codec use {marshal, trim, decode, unquote, is_quoted}

  checked_scoped :
      (aggs : Fields) (out : String)
      → marshaled codec aggs (walk_aggs 1 aggs) ≡ ok (some out)
      → IsSent codec out
  unfolding marshaled IsSent
  checked_scoped aggs out h = elim (Option-cases (walk_aggs 1 aggs)) [
    | inl n ↦ elim (Option-cases (marshal aggs)) [
      | inl m ↦ absurd (ground arith)
      | inr (o, m) ↦ (aggs, ground arith, n)
    ]
    | inr (e, s) ↦ absurd (ground arith)
  ]

  checked-IsSent :
      (t : Option Value) (out : String) → checked codec t ≡ ok (some out) → IsSent codec out
  unfolding checked
  checked-IsSent (some (object no_fields)) out h = absurd (ground arith)
  checked-IsSent (some (object (field k v fs))) out h = checked_scoped (field k v fs) out h
  checked-IsSent (some null) out h = absurd (ground arith)
  checked-IsSent (some (boolean b)) out h = absurd (ground arith)
  checked-IsSent (some (number n)) out h = absurd (ground arith)
  checked-IsSent (some (text s)) out h = absurd (ground arith)
  checked-IsSent (some (array xs)) out h = absurd (ground arith)
  checked-IsSent none out h = absurd (ground arith)

  inner-IsSent :
      (t : Option String) (out : String) → inner codec t ≡ ok (some out) → IsSent codec out
  unfolding inner
  inner-IsSent none out h = absurd (ground arith)
  inner-IsSent (some s) out h = elim (Bool-cases (is_blank codec (trim s))) [
    | inl a ↦ absurd (ground arith)
    | inr a ↦ checked-IsSent (decode (trim s)) out (ground arith)
  ]

  -- What a request sends to OpenSearch is the serial form of an object that the walk accepted,
  -- whether the model gave the object or a text that holds it.
  pub normalize_aggregations-IsSent :
      (raw out : String) → normalize_aggregations codec raw ≡ ok (some out) → IsSent codec out
  unfolding normalize_aggregations
  normalize_aggregations-IsSent raw out h = elim (Bool-cases (is_blank codec (trim raw))) [
    | inl a ↦ absurd (ground arith)
    | inr a ↦ elim (Bool-cases (is_quoted (trim raw))) [
      | inl q ↦ inner-IsSent (unquote raw) out (ground arith)
      | inr q ↦ checked-IsSent (decode (trim raw)) out (ground arith)
    ]
  ]
