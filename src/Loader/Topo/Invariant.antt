-- ===== src/Loader/Topo/Invariant.antt =====
-- The invariant of Kahn's loop: what the degrees count, and where each node stands.
use ai_agent_go_service.Prelude.{
  ℕ, zero, suc, ◌+◌, ◌-◌, ◌≤◌, ◌<◌, String, ◌==◌, eq_iff, eq_refl, ◌≡◌, ◌&&◌, List, [], ◌∷◌, ◌++◌,
  length, length-append, count, All, eqb, ltb, if◌then◌else◌, arith,
}
use mathlib.Core.List.{append-nil, append_assoc}
use ai_agent_go_service.Prelude.Counting.{count-append, length-le}
use ai_agent_go_service.Loader.Types.{RawConn}
use ai_agent_go_service.Loader.Topo.{
  Degrees, bump, lower, count_degrees, targets, roots, release, kahn,
}

-- The number of connections into v from nodes that are not in `done`.
unfoldable pub pending : List RawConn → List String → String → ℕ
pending [] done v = 0
pending (c ∷ cs) done v =
    if c.to.node == v && eqb (count c.from.node done) 0
    then suc (pending cs done v)
    else pending cs done v

-- After running `done`, each node of the list runs when all its sources have run.
abbrev pub RunsInOrder : List RawConn → List String → List String → Type 0
RunsInOrder cs done [] = Unit
RunsInOrder cs done (n ∷ ns) = (pending cs done n ≡ 0) × RunsInOrder cs (done ++ n ∷ []) ns

-- The connections join nodes of the workflow, and no node stands twice in it.
pub record WellFormed (ids : List String) (cs : List RawConn) : Type 0 where
  pub distinct : (v : String) → count v ids ≤ 1
  pub known : All (λ c. (count c.from.node ids ≡ 1) × (count c.to.node ids ≡ 1)) cs

record Inv (ids : List String) (cs : List RawConn) (queue : List String) (f : Degrees)
    (order : List String) : Type 0 where
  placed : (v : String) → count v queue + count v order ≡ (if eqb (f v) 0 then count v ids else 0)
  degree : (v : String) → f v ≡ pending cs order v
  ordered : RunsInOrder cs [] order

count_degrees-pending :
    (f : Degrees) (cs : List RawConn) (v : String) → count_degrees f cs v ≡ f v + pending cs [] v
unfolding count_degrees pending bump
count_degrees-pending f [] v = omega arith
count_degrees-pending f (c ∷ cs) v = ground (arith, count_degrees-pending (bump f c.to.node) cs v)

count-roots :
    (ids : List String) (f : Degrees) (v : String)
    → count v (roots ids f) ≡ (if eqb (f v) 0 then count v ids else 0)
unfolding roots
count-roots [] f v = ground arith
count-roots (id ∷ ids) f v = ground (arith, count-roots ids f v, eq_iff id v)

RunsInOrder-snoc :
    (cs : List RawConn) (done ns : List String) (n : String)
    → RunsInOrder cs done ns
    → pending cs (done ++ ns) n ≡ 0
    → RunsInOrder cs done (ns ++ n ∷ [])
RunsInOrder-snoc cs done [] n r h = (rw append-nil at h, tt)
RunsInOrder-snoc cs done (m ∷ ns) n r h =
    (r.0, RunsInOrder-snoc cs (done ++ m ∷ []) ns n r.1 (rw append_assoc h))

-- Running n takes its connections away from what its targets wait for.
pending-snoc :
    (cs : List RawConn) (done : List String) (n v : String)
    → count n done ≡ 0
    → pending cs (done ++ n ∷ []) v + count v (targets cs n) ≡ pending cs done v
unfolding pending targets
pending-snoc [] done n v h = omega arith
pending-snoc (c ∷ cs) done n v h = ground (
  arith,
  pending-snoc cs done n v h,
  count-append c.from.node done (n ∷ []),
  eq_iff n c.from.node,
  eq_iff c.from.node n,
)

release-degree :
    (ms : List String) (f : Degrees) (queue : List String) (v : String)
    → (release ms f queue).0 v ≡ f v - count v ms
unfolding release
release-degree [] f queue v = omega arith
release-degree (m ∷ ms) f queue v = ground (
  arith,
  release-degree ms (lower f m) (if eqb (lower f m m) 0 then queue ++ m ∷ [] else queue) v,
  eq_iff m v,
)

count-release :
    (ms : List String) (f : Degrees) (queue : List String) (v : String)
    → count v ms ≤ f v
    → count v (release ms f queue).1
      ≡ count v queue + (if ltb 0 (count v ms) && eqb (f v) (count v ms) then 1 else 0)
unfolding release
count-release [] f queue v h = omega arith
count-release (m ∷ ms) f queue v h = ground (
  arith,
  count-release ms (lower f m) (if eqb (lower f m m) 0 then queue ++ m ∷ [] else queue) v,
  count-append v queue (m ∷ []),
  eq_iff m v,
)

target_known :
    (ids : List String) (cs : List RawConn) (n v : String)
    → All (λ c. (count c.from.node ids ≡ 1) × (count c.to.node ids ≡ 1)) cs
    → 0 < count v (targets cs n)
    → count v ids ≡ 1
unfolding targets
target_known ids [] n v k h = absurd (omega arith)
target_known ids (c ∷ cs) n v k h = ground (arith, target_known ids cs n v k.1, eq_iff c.to.node v)

start-Inv :
    (ids : List String) (cs : List RawConn)
    → Inv ids cs (roots ids (count_degrees (λ j. 0) cs)) (count_degrees (λ j. 0) cs) []
start-Inv ids cs = record {
  placed = λ v. omega (arith, count-roots ids (count_degrees (λ j. 0) cs) v);
  degree = λ v. omega (arith, count_degrees-pending (λ j. 0) cs v);
  ordered = tt;
}

module _ (ids : List String) (cs : List RawConn) (wf : WellFormed ids cs) where
  -- One round of the outer loop.
  step-Inv :
      (n : String) (queue : List String) (f : Degrees) (order : List String)
      → Inv ids cs (n ∷ queue) f order
      → Inv ids cs
          (release (targets cs n) f queue).1
          (release (targets cs n) f queue).0
          (order ++ n ∷ [])
  step-Inv n queue f order i = record {
    placed = λ v. placed v;
    degree = λ v. omega (
      arith,
      release-degree (targets cs n) f queue v,
      pending-snoc cs order n v fresh,
      i.degree v,
    );
    ordered = RunsInOrder-snoc cs [] order n i.ordered ready;
  }
    where
      fresh : count n order ≡ 0
      fresh = ground (arith, i.placed n, wf.distinct n, eq_refl n)

      enough : (v : String) → count v (targets cs n) ≤ f v
      enough v = omega (arith, pending-snoc cs order n v fresh, i.degree v)

      placed :
          (v : String)
          → count v (release (targets cs n) f queue).1 + count v (order ++ n ∷ [])
            ≡ (if eqb ((release (targets cs n) f queue).0 v) 0 then count v ids else 0)
      placed v = ground (
        arith,
        i.placed v,
        count-release (targets cs n) f queue v (enough v),
        release-degree (targets cs n) f queue v,
        count-append v order (n ∷ []),
        target_known ids cs n v wf.known,
        enough v,
      )

      ready : pending cs order n ≡ 0
      ready = ground (arith, i.placed n, i.degree n, eq_refl n)

  order-le :
      (queue : List String) (f : Degrees) (order : List String)
      → Inv ids cs queue f order
      → length order ≤ length ids
  order-le queue f order i = length-le order ids (λ v. ground (arith, i.placed v))

  -- Fuel above the number of nodes is enough to empty the queue.
  kahn-Inv :
      (fuel : ℕ) (queue : List String) (f : Degrees) (order : List String)
      → length ids < fuel + length order
      → Inv ids cs queue f order
      → (f' : Degrees) × Inv ids cs [] f' (kahn fuel cs queue f order)
  unfolding kahn
  kahn-Inv zero queue f order h i = absurd (omega (arith, order-le queue f order i))
  kahn-Inv (suc fuel) [] f order h i = (f, i)
  kahn-Inv (suc fuel) (n ∷ queue) f order h i =
      kahn-Inv fuel (release (targets cs n) f queue).1 (release (targets cs n) f queue).0
        (order ++ n ∷ []) (omega (arith, length-append order (n ∷ []))) (step-Inv n queue f order i)

  -- The order that the loop leaves: it respects the connections, and it holds the nodes that wait
  -- for none outside of it.
  unfoldable pub full_order : List String
  full_order =
      kahn (length ids + length cs + 1) cs (roots ids (count_degrees (λ j. 0) cs))
        (count_degrees (λ j. 0) cs) []

  pub full_order-RunsInOrder : RunsInOrder cs [] full_order
  unfolding full_order
  full_order-RunsInOrder = (kahn-Inv _ _ _ [] (omega arith) (start-Inv ids cs)).1.ordered

  pub count-full_order :
      (v : String)
      → count v full_order ≡ (if eqb (pending cs full_order v) 0 then count v ids else 0)
  unfolding full_order
  count-full_order v =
      let (f, i) = kahn-Inv (length ids + length cs + 1) _ _ [] (omega arith) (start-Inv ids cs) in
      rw (← i.degree v) (omega (arith, i.placed v))
