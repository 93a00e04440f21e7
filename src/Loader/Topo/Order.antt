-- ===== src/Loader/Topo/Order.antt =====
-- What TopoOrder returns, and when it fails.
use ai_agent_go_service.Prelude.{
  ℕ, zero, suc, ◌≤◌, ◌<◌, String, ◌==◌, eq_iff, ◌≡◌, refl, ◌∙◌, subst, true, List, [], ◌∷◌, ◌++◌,
  length, count, All, eqb, if◌then◌else◌, arith, ◌⊎◌, ◌↔◌, ok, err,
}
use ai_agent_go_service.Prelude.Counting.{count-append, length-le, count-eq}
use ai_agent_go_service.Loader.Types.{RawConn}
use ai_agent_go_service.Loader.Topo.{cyclic, topo_order}
use ai_agent_go_service.Loader.Topo.Invariant.{
  WellFormed, RunsInOrder, pending, full_order, full_order-RunsInOrder, count-full_order,
}

-- The graph has no cycle: some rank grows along each connection.
abbrev pub Ranks : (String → ℕ) → List RawConn → Type 0
Ranks rank cs = All (λ c. rank c.from.node < rank c.to.node) cs

-- Nothing into v is pending if every source of lower rank has run.
pending_of_ranked :
    (ids : List String) (cs : List RawConn) (rank : String → ℕ) (done : List String) (v : String)
    → Ranks rank cs
    → All (λ c. (count c.from.node ids ≡ 1) × (count c.to.node ids ≡ 1)) cs
    → ((u : String) → rank u < rank v → count u done ≡ count u ids)
    → pending cs done v ≡ 0
unfolding pending
pending_of_ranked ids [] rank done v r k h = refl
pending_of_ranked ids (c ∷ cs) rank done v r k h =
    ground
      (arith, pending_of_ranked ids cs rank done v r.1 k.1 h, h c.from.node, eq_iff c.to.node v)

position : String → List String → ℕ
position v [] = 0
position v (x ∷ xs) = if x == v then 0 else suc (position v xs)

-- What runs when nothing is pending has all its sources behind it.
abbrev Covers : List RawConn → RawConn → Type 0
Covers cs c =
    (done : List String) (v : String)
    → pending cs done v ≡ 0
    → c.to.node ≡ v
    → 0 < count c.from.node done

Covers-tail : (d c : RawConn) (cs : List RawConn) → Covers cs c → Covers (d ∷ cs) c
unfolding pending
Covers-tail d c cs h done v p e = ground (arith, h done v)

Covers-weaken : (d : RawConn) (cs ds : List RawConn) → All (Covers cs) ds → All (Covers (d ∷ cs)) ds
Covers-weaken d cs [] h = tt
Covers-weaken d cs (c ∷ ds) h = (Covers-tail d c cs h.0, Covers-weaken d cs ds h.1)

Covers-head : (c : RawConn) (cs : List RawConn) → Covers (c ∷ cs) c
unfolding pending
Covers-head c cs done v p e = ground (arith, eq_iff c.to.node v)

Covers-all : (cs : List RawConn) → All (Covers cs) cs
Covers-all [] = tt
Covers-all (c ∷ cs) = (Covers-head c cs, Covers-weaken c cs cs (Covers-all cs))

position-lt :
    (cs : List RawConn) (c : RawConn) (done ns : List String)
    → Covers cs c
    → RunsInOrder cs done ns
    → 0 < count c.to.node ns
    → (0 < count c.from.node done) ⊎ (position c.from.node ns < position c.to.node ns)
unfolding position
position-lt cs c done [] cov r h = absurd (omega arith)
position-lt cs c done (n ∷ ns) cov r h = ground (
  arith,
  cov done n r.0,
  position-lt cs c (done ++ n ∷ []) ns cov r.1,
  count-append c.from.node done (n ∷ []),
  eq_iff n c.to.node,
)

module _ (ids : List String) (cs : List RawConn) (wf : WellFormed ids cs) where
  full_order-le : (v : String) → count v (full_order ids cs wf) ≤ count v ids
  full_order-le v = ground (arith, count-full_order ids cs wf v)

  ranked_full :
      (rank : String → ℕ)
      → Ranks rank cs
      → (k : ℕ) (v : String) → rank v < k
      → count v (full_order ids cs wf) ≡ count v ids
  ranked_full rank r zero v h = absurd (omega arith)
  ranked_full rank r (suc k) v h = ground (
    arith,
    count-full_order ids cs wf v,
    pending_of_ranked ids cs rank (full_order ids cs wf) v r wf.known
        (λ u l. ranked_full rank r k u (omega arith)),
  )

  topo_order-full : topo_order ids cs ≡ (
      if eqb (length (full_order ids cs wf)) (length ids)
      then ok (full_order ids cs wf)
      else err cyclic)
  unfolding topo_order full_order
  topo_order-full = refl

  full_order-eq :
      (order : List String)
      → topo_order ids cs ≡ ok order
      → (length (full_order ids cs wf) ≡ length ids) × (full_order ids cs wf ≡ order)
  full_order-eq order h =
      let same : eqb (length (full_order ids cs wf)) (length ids) ≡ true =
        ground (arith, topo_order-full) in
      (ground arith, ground (arith, topo_order-full))

  -- If the ids are distinct and every connection joins two of them, a returned order holds the
  -- nodes of the workflow, each as often, and each node runs when all sources of its connections
  -- have run.
  pub topo_order_sound :
      (order : List String)
      → topo_order ids cs ≡ ok order
      → RunsInOrder cs [] order × ((v : String) → count v order ≡ count v ids)
  topo_order_sound order h = (
    subst (RunsInOrder cs []) (full_order-eq order h).1 (full_order-RunsInOrder ids cs wf),
    λ v.
        rw (← (full_order-eq order h).1)
          (count-eq (full_order ids cs wf) ids v full_order-le (full_order-eq order h).0),
  )

  ranked_ordered :
      (rank : String → ℕ) → Ranks rank cs → (order : List String) × (topo_order ids cs ≡ ok order)
  ranked_ordered rank r = (full_order ids cs wf, topo_order-full ∙ rw same refl)
    where
      same : eqb (length (full_order ids cs wf)) (length ids) ≡ true
      same = ground (
        arith,
        length-le (full_order ids cs wf) ids full_order-le,
        length-le ids (full_order ids cs wf)
            (λ v. omega (arith, ranked_full rank r (suc (rank v)) v (omega arith))),
      )

  position-Ranks :
      (order : List String) (ds : List RawConn)
      → RunsInOrder cs [] order
      → ((v : String) → count v order ≡ count v ids)
      → All (Covers cs) ds
      → All (λ c. (count c.from.node ids ≡ 1) × (count c.to.node ids ≡ 1)) ds
      → Ranks (λ v. position v order) ds
  position-Ranks order [] r full cov k = tt
  position-Ranks order (c ∷ ds) r full cov k = (
    ground (arith, position-lt cs c [] order cov.0 r, full c.to.node),
    position-Ranks order ds r full cov.1 k.1,
  )

  -- If the ids are distinct and every connection joins two of them, an order is returned exactly
  -- if the graph has no cycle: if some rank grows along each connection.
  pub topo_order-iff_acyclic :
      ((order : List String) × (topo_order ids cs ≡ ok order))
      ↔ ((rank : String → ℕ) × Ranks rank cs)
  topo_order-iff_acyclic = (
    λ found.
        let (order, h) = found in
        let (r, full) = topo_order_sound order h in
        (λ v. position v order, position-Ranks order cs r full (Covers-all cs) wf.known),
    λ ranked. let (rank, r) = ranked in ranked_ordered rank r,
  )
