-- ===== src/Loader/Derive/Merge/Sources.antt =====
-- What an entry of the overlay does to the nodes, by the index of its id.
use ai_agent_go_service.Prelude.{
  ℕ, zero, suc, ◌+◌, String, ◌==◌, eq_iff, ◌≡◌, refl, sym, ap, ◌∙◌, subst, true, false, List, [],
  ◌∷◌, ◌++◌, Option, some, none, ok, elem, Bool-cases, Result-cases, ◌⊎◌, inl, inr, arith,
}
use mathlib.Core.List.{Memᴰ}
use ai_agent_go_service.Json.{Fields, remove, get_bool}
use ai_agent_go_service.Loader.Derive.{deep_merge}
use ai_agent_go_service.Loader.Derive.Merge.{
  NodeMerge, node_id, index_from, merge_at, keep_entry, drop_entry, apply_entry, apply_entries,
}

abbrev pub ids_of : List Fields → List String
ids_of [] = []
ids_of (n ∷ ns) = node_id n ∷ ids_of ns

abbrev pub Distinct : List String → Type 0
Distinct [] = Unit
Distinct (i ∷ is) = (elem i is ≡ false) × Distinct is

abbrev pub IdAt : ℕ → List String → String → Type 0
IdAt i [] id = ⊥
IdAt zero (j ∷ js) id = j ≡ id
IdAt (suc i) (j ∷ js) id = IdAt i js id

index_from-IdAt :
    (k : ℕ) (ns : List Fields) (id : String) (found : Option ℕ) (i : ℕ)
    → index_from k ns id found ≡ some i
    → (found ≡ some i) ⊎ ((j : ℕ) × (i ≡ k + j) × IdAt j (ids_of ns) id)
unfolding index_from
index_from-IdAt k [] id found i h = inl h
index_from-IdAt k (n ∷ ns) id found i h = elim (Bool-cases (node_id n == id)) [
  | inl c ↦ elim (index_from-IdAt (suc k) ns id (some k) i (rw c at h)) [
    | inl e ↦ inr (0, ground arith, (eq_iff (node_id n) id).0 c)
    | inr (j, e, a) ↦ inr (suc j, omega (arith, e), a)
  ]
  | inr c ↦ elim (index_from-IdAt (suc k) ns id found i (rw c at h)) [
    | inl e ↦ inl e
    | inr (j, e, a) ↦ inr (suc j, omega (arith, e), a)
  ]
]

-- byID finds a node of the id.
found-IdAt :
    (base : List Fields) (id : String) (i : ℕ)
    → index_from 0 base id none ≡ some i
    → IdAt i (ids_of base) id
found-IdAt base id i h = elim (index_from-IdAt 0 base id none i h) [
  | inl e ↦ absurd (ground arith)
  | inr (j, e, a) ↦ subst (λ x. IdAt x (ids_of base) id) (omega (arith, e)) a
]

pub IdAt-elem : (i : ℕ) (is : List String) (id : String) → IdAt i is id → elem id is ≡ true
IdAt-elem i [] id h = absurd h
IdAt-elem zero (j ∷ js) id h = ground (arith, eq_iff id j, eq_iff j id, h)
IdAt-elem (suc i) (j ∷ js) id h = ground (arith, IdAt-elem i js id h)

pub elem-Mem : (n : Fields) (ns : List Fields) → Memᴰ n ns → elem (node_id n) (ids_of ns) ≡ true
elem-Mem n [] i = elim i [ ]
elem-Mem n (m ∷ ns) (Memᴰ.head e) =
    IdAt-elem 0 (ids_of (m ∷ ns)) (node_id n) (ap (λ x. node_id x) (sym e))
elem-Mem n (m ∷ ns) (Memᴰ.tail i) = ground (arith, elem-Mem n ns i)

-- A text of a list differs from one that is not of it.
pub apart :
    (x y : String) (is : List String) → elem x is ≡ true → elem y is ≡ false → (x == y) ≡ false
apart x y is h k = elim (Bool-cases (x == y)) [
  | inl c ↦ absurd (let h' = subst (λ z. elem z is ≡ true) ((eq_iff x y).0 c) h in ground arith)
  | inr c ↦ c
]

pub apart_sym :
    (x y : String) (is : List String) → elem x is ≡ true → elem y is ≡ false → (y == x) ≡ false
apart_sym x y is h k = elim (Bool-cases (y == x)) [
  | inl c ↦
      absurd (let h' = subst (λ z. elem z is ≡ true) (sym ((eq_iff y x).0 c)) h in ground arith)
  | inr c ↦ c
]

index_from-absent :
    (k : ℕ) (ns : List Fields) (id : String) (found : Option ℕ)
    → index_from k ns id found ≡ none
    → (found ≡ none) × (elem id (ids_of ns) ≡ false)
unfolding index_from
index_from-absent k [] id found h = (h, refl)
index_from-absent k (n ∷ ns) id found h = elim (Bool-cases (node_id n == id)) [
  | inl c ↦
      absurd (let a = (index_from-absent (suc k) ns id (some k) (rw c at h)).0 in ground arith)
  | inr c ↦ (let (a, b) = index_from-absent (suc k) ns id found (rw c at h) in (a, ground arith))
]

-- Where a node comes from, once an entry is merged at the index of its id.
pub merge_at-source :
    (i : ℕ) (ms : List Fields) (on m1 : Fields) (id : String)
    → Distinct (ids_of ms)
    → IdAt i (ids_of ms) id
    → Memᴰ m1 (merge_at i on ms)
    → (Memᴰ m1 ms × ((node_id m1 == id) ≡ false))
      ⊎ ((m : Fields) × Memᴰ m ms × (node_id m ≡ id) × (m1 ≡ deep_merge m on))
unfolding merge_at
merge_at-source i [] on m1 id d a h = absurd a
merge_at-source zero (m ∷ ms) on m1 id (d, ds) a (Memᴰ.head e) = inr (m, Memᴰ.head refl, a, e)
merge_at-source zero (m ∷ ms) on m1 id (d, ds) a (Memᴰ.tail h) = inl (
  Memᴰ.tail h,
  subst (λ x. (node_id m1 == x) ≡ false) a
      (apart (node_id m1) (node_id m) (ids_of ms) (elem-Mem m1 ms h) d),
)
merge_at-source (suc i) (m ∷ ms) on m1 id (d, ds) a (Memᴰ.head e) = inl (
  Memᴰ.head e,
  subst (λ x. (node_id x == id) ≡ false) (sym e)
      (apart_sym id (node_id m) (ids_of ms) (IdAt-elem i (ids_of ms) id a) d),
)
merge_at-source (suc i) (m ∷ ms) on m1 id (d, ds) a (Memᴰ.tail h) =
    elim (merge_at-source i ms on m1 id ds a h) [
      | inl (k, f) ↦ inl (Memᴰ.tail k, f)
      | inr (n, k, q, e) ↦ inr (n, Memᴰ.tail k, q, e)
    ]

pub ids_of-merge_at :
    (i : ℕ) (ms : List Fields) (on : Fields) (id : String)
    → IdAt i (ids_of ms) id
    → ((m : Fields) → node_id (deep_merge m on) ≡ id)
    → ids_of (merge_at i on ms) ≡ ids_of ms
unfolding merge_at
ids_of-merge_at i [] on id a h = absurd a
ids_of-merge_at zero (m ∷ ms) on id a h = ap (λ x. x ∷ ids_of ms) (h m ∙ sym a)
ids_of-merge_at (suc i) (m ∷ ms) on id a h =
    ap (λ x. node_id m ∷ x) (ids_of-merge_at i ms on id a h)

-- What an entry of the overlay does.
pub data Applied (base : List Fields) (on : Fields) (st : NodeMerge) : NodeMerge → Type 0 where
  dropped : Applied base on st (record st { removed = node_id on ∷ st.removed })
  joined :
      (i : ℕ)
      → IdAt i (ids_of base) (node_id on)
      → (node_id on == "") ≡ false
      → Applied base on st (record st { merged = merge_at i (remove "$remove" on) st.merged })
  added :
      elem (node_id on) (ids_of base) ≡ false
      → Applied base on st (record st { appended = st.appended ++ remove "$remove" on ∷ [] })

kept-Applied :
    (base : List Fields) (on : Fields) (st : NodeMerge) (o : Option ℕ)
    → index_from 0 base (node_id on) none ≡ o
    → (node_id on == "") ≡ false
    → Applied base on st (keep_entry o (remove "$remove" on) st)
unfolding keep_entry
kept-Applied base on st none e f = added (index_from-absent 0 base (node_id on) none e).1
kept-Applied base on st (some i) e f = joined i (found-IdAt base (node_id on) i e) f

dropped-Applied :
    (base : List Fields) (on : Fields) (st st1 : NodeMerge) (o : Option ℕ)
    → drop_entry o (node_id on) st ≡ ok st1
    → Applied base on st st1
unfolding drop_entry
dropped-Applied base on st st1 none h = absurd (ground arith)
dropped-Applied base on st st1 (some i) h = subst (Applied base on st) (let e = h in cc) dropped

pub apply_entry-Applied :
    (base : List Fields) (on : Fields) (st st1 : NodeMerge)
    → apply_entry base on st ≡ ok st1
    → Applied base on st st1
unfolding apply_entry
apply_entry-Applied base on st st1 h = elim (Bool-cases (node_id on == "")) [
  | inl e ↦ absurd (ground arith)
  | inr f ↦ elim (Bool-cases (get_bool "$remove" on)) [
    | inl r ↦ dropped-Applied base on st st1 (index_from 0 base (node_id on) none) (ground arith)
    | inr r ↦
        subst (Applied base on st) (ground arith)
          (kept-Applied base on st (index_from 0 base (node_id on) none) refl f)
  ]
]

pub removed-grows :
    (base ons : List Fields) (st st' : NodeMerge) (x : String)
    → apply_entries base ons st ≡ ok st'
    → elem x st.removed ≡ true
    → elem x st'.removed ≡ true
unfolding apply_entries
removed-grows base [] st st' x h r = ground arith
removed-grows base (on ∷ ons) st st' x h r = elim (Result-cases (apply_entry base on st)) [
  | inr (e, s) ↦ absurd (ground arith)
  | inl (st1, s) ↦
      removed-grows base ons st1 st' x (ground arith)
        (step st1 (apply_entry-Applied base on st st1 s))
]
  where
    step : (st1 : NodeMerge) → Applied base on st st1 → elem x st1.removed ≡ true
    step _ dropped = ground (arith, r)
    step _ (joined i a f) = r
    step _ (added n) = r
