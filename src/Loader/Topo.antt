-- ===== src/Loader/Topo.antt =====
-- TopoOrder of validate.go: Kahn's algorithm. The ids come in the order of one iteration over
-- the map of nodes, which Go leaves open. A degree is a number that stops at 0; a node is
-- released once for each connection that its degree counts.
pub mod Invariant
pub mod Order
pub mod Examples
use ai_agent_go_service.Prelude.{
  ℕ, zero, suc, ◌+◌, ◌-◌, String, ◌==◌, Bool, List, [], ◌∷◌, ◌++◌, Result, ok, err, length, eqb,
  if◌then◌else◌,
}
use ai_agent_go_service.Loader.Types.{RawConn}

-- The map of in-degrees; an absent key is 0.
abbrev pub Degrees : Type 0
Degrees = String → ℕ

-- indeg[c.To.Node]++
bump : Degrees → String → Degrees
bump f k j = if k == j then f j + 1 else f j

-- indeg[m]--
lower : Degrees → String → Degrees
lower f m j = if m == j then f j - 1 else f j

pub count_degrees : Degrees → List RawConn → Degrees
unfolding bump
count_degrees f [] = f
count_degrees f (c ∷ cs) = count_degrees (bump f c.to.node) cs

-- out[n]
pub targets : List RawConn → String → List String
targets [] n = []
targets (c ∷ cs) n = if c.from.node == n then c.to.node ∷ targets cs n else targets cs n

-- The first queue: the ids of degree 0.
pub roots : List String → Degrees → List String
roots [] f = []
roots (id ∷ ids) f = if eqb (f id) 0 then id ∷ roots ids f else roots ids f

-- The inner loop, over the targets of the popped node.
pub release : List String → Degrees → List String → Degrees × List String
unfolding lower
release [] f queue = (f, queue)
release (m ∷ ms) f queue =
    let f' = lower f m in release ms f' (if eqb (f' m) 0 then queue ++ m ∷ [] else queue)

-- The outer loop, on fuel; the order is returned when the queue is empty.
pub kahn : ℕ → List RawConn → List String → Degrees → List String → List String
unfolding release targets
kahn zero conns queue f order = order
kahn (suc fuel) conns [] f order = order
kahn (suc fuel) conns (n ∷ queue) f order =
    let (f', queue') = release (targets conns n) f queue in
    kahn fuel conns queue' f' (order ++ n ∷ [])

pub data TopoError : Type 0 where
  cyclic : TopoError

unfoldable pub topo_order : List String → List RawConn → Result TopoError (List String)
unfolding kahn roots count_degrees
topo_order ids conns =
    let f = count_degrees (λ j. 0) conns in
    let order = kahn (length ids + length conns + 1) conns (roots ids f) f [] in
    if eqb (length order) (length ids) then ok order else err cyclic
