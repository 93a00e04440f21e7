-- ===== src/Loader/RetryBlocks/Laws.antt =====
-- Which nodes end up with a policy.
use ai_agent_go_service.Prelude.{
  String, ◌==◌, ◌≡◌, refl, subst, true, List, [], ◌∷◌, Option, some, none, Result, ok, Bool-cases,
  Option-cases, Result-cases, ◌⊎◌, inl, inr, arith,
}
use mathlib.Core.List.{Memᴰ}
use mathlib.Core.List.Memᴰ
use ai_agent_go_service.Loader.Types.{lookup}
use ai_agent_go_service.Loader.Nodes.{Node}
use ai_agent_go_service.Loader.RetryBlocks.{
  RetryBlock, is_retry_role, with_policy, with_instance, add_block, add_blocks, parse_retry_by_node,
}

module _ {E P : Type 0} (parse : String → Result E (Option P)) where
  -- The policy comes from this block, and the node's role may be retried.
  pub data Grants (instances : List (String × Node)) (n : RetryBlock) (id : String) (p : P)
      : Type 0 where
    grants :
        {node : Node}
        → n.id ≡ id
        → parse n.retry ≡ ok (some p)
        → lookup n.id instances ≡ some node
        → is_retry_role node.spec.role ≡ true
        → Grants instances n id p

  add_block-Grants :
      (instances : List (String × Node)) (n : RetryBlock) (out out' : List (String × P))
      (id : String) (p : P)
      → add_block parse instances n out ≡ ok out'
      → Memᴰ (id, p) out'
      → Memᴰ (id, p) out ⊎ Grants instances n id p
  unfolding add_block with_instance with_policy
  add_block-Grants instances n out out' id p h i = elim (Bool-cases (n.retry == "")) [
    | inl b ↦ inl (subst (Memᴰ (id, p)) (ground arith) i)
    | inr b ↦ elim (Option-cases (lookup n.id instances)) [
      | inl m ↦ absurd (ground arith)
      | inr (node, m) ↦ elim (Bool-cases (is_retry_role node.spec.role)) [
        | inr r ↦ absurd (ground arith)
        | inl r ↦ elim (Result-cases (parse n.retry)) [
          | inr (e, q) ↦ absurd (ground arith)
          | inl (none, q) ↦ inl (subst (Memᴰ (id, p)) (ground arith) i)
          | inl (some pol, q) ↦
              (let e : out' ≡ (n.id, pol) ∷ out = ground arith in
                elim (Memᴰ.cases_cons (subst (Memᴰ (id, p)) e i)) [
                  | inl d ↦ inr (grants (ground arith) (ground arith) m r)
                  | inr j ↦ inl j
                ])
        ]
      ]
    ]
  ]

  add_blocks-Grants :
      (instances : List (String × Node)) (ns : List RetryBlock) (out out' : List (String × P))
      (id : String) (p : P)
      → add_blocks parse instances ns out ≡ ok out'
      → Memᴰ (id, p) out'
      → Memᴰ (id, p) out ⊎ ((n : RetryBlock) × Memᴰ n ns × Grants instances n id p)
  unfolding add_blocks
  add_blocks-Grants instances [] out out' id p h i = inl (subst (Memᴰ (id, p)) (ground arith) i)
  add_blocks-Grants instances (n ∷ ns) out out' id p h i =
      elim (Result-cases (add_block parse instances n out)) [
        | inr (e, s) ↦ absurd (ground arith)
        | inl (mid, s) ↦ elim (add_blocks-Grants instances ns mid out' id p (ground arith) i) [
          | inr (m, j, g) ↦ inr (m, Memᴰ.tail j, g)
          | inl j ↦ elim (add_block-Grants instances n out mid id p s j) [
            | inl k ↦ inl k
            | inr g ↦ inr (n, Memᴰ.head refl, g)
          ]
        ]
      ]

  -- If the retry blocks are accepted, each policy of the map comes from the block of a node with
  -- that id, whose role is tool, agent or llm.
  pub parse_retry_by_node-Grants :
      (blocks : List RetryBlock) (instances : List (String × Node)) (out : List (String × P))
      (id : String) (p : P)
      → parse_retry_by_node parse blocks instances ≡ ok out
      → Memᴰ (id, p) out
      → (n : RetryBlock) × Memᴰ n blocks × Grants instances n id p
  unfolding parse_retry_by_node
  parse_retry_by_node-Grants blocks instances out id p h i =
      elim (add_blocks-Grants instances blocks [] out id p h i) [ inl j ↦ elim j [ ] | inr g ↦ g ]
