-- ===== src/Loader/Load/Built.antt =====
-- What the stages of loading pass on: distinct nodes, and each of the order initialised.
use ai_agent_go_service.Prelude.{
  ◌≡◌, refl, ap, sym, subst, ◌∙◌, String, ◌==◌, eq_iff, true, false, ◌||◌, List, [], ◌∷◌, ◌++◌,
  elem, Bool-cases, inl, inr, arith, Result, ok, err, ◌>>=◌,
}
use mathlib.Core.List.{append-nil, append_assoc}
use ai_agent_go_service.Prelude.Counting.{is_distinct}
use ai_agent_go_service.Loader.Types.{RawConn, keys}
use ai_agent_go_service.Loader.Nodes.{Node}
use ai_agent_go_service.Loader.Envelope.{RawNode}
use ai_agent_go_service.Loader.Overrides.{apply_overrides}
use ai_agent_go_service.Loader.Connections.{Nodes}
use ai_agent_go_service.Loader.Load.{
  LoadError, Loader, add_node, make_peer_resolver, none_of, instance_of, build_nodes, init_node,
  init_nodes,
}

pub bind_ok :
    {X A B : Type 0} (r : Result X A) (f : A → Result X B) (b : B)
    → (r >>= f) ≡ ok b
    → (a : A) × (r ≡ ok a) × (f a ≡ ok b)
bind_ok (ok a) f b h = (a, refl, h)
bind_ok (err e) f b h = absurd (ground (arith, h))

pub ok_inj : {X A : Type 0} (a b : A) → Path (Result X A) (ok a) (ok b) → a ≡ b
ok_inj a b h = ap (λ r. elim r [ ok x ↦ x | err e ↦ a ]) h

-- Setting an entry of a map leaves its keys distinct.
elem-add_node :
    (v id : String) (n : Node) (ns : Nodes)
    → elem v (keys (add_node id n ns)) ≡ (elem v (keys ns) || id == v)
unfolding add_node
elem-add_node v id n [] = ground arith
elem-add_node v id n ((j, m) ∷ ns) = elim (Bool-cases (j == id)) [
  | inl t ↦
      rw (add_node, t)
        (subst (λ x. (j == v || elem v (keys ns)) ≡ ((j == v || elem v (keys ns)) || x == v))
          ((eq_iff j id).0 t) (ground arith))
  | inr f ↦ rw (add_node, f) (ground (arith, elem-add_node v id n ns))
]

tail_distinct :
    (x : String) (xs : List String) → is_distinct (x ∷ xs) ≡ true → is_distinct xs ≡ true
tail_distinct x xs h = ground (arith, h)

is_distinct-add_node :
    (id : String) (n : Node) (ns : Nodes)
    → is_distinct (keys ns) ≡ true
    → is_distinct (keys (add_node id n ns)) ≡ true
unfolding add_node
is_distinct-add_node id n [] h = ground arith
is_distinct-add_node id n ((j, m) ∷ ns) h = elim (Bool-cases (j == id)) [
  | inl t ↦ rw (add_node, t) h
  | inr f ↦
      rw (add_node, f)
        (ground (
          arith,
          elem-add_node j id n ns,
          is_distinct-add_node id n ns (tail_distinct j (keys ns) h),
          other f,
          h,
        ))
]
  where
    other : (j == id) ≡ false → (id == j) ≡ false
    other f = elim (Bool-cases (id == j)) [
      | inl q ↦ absurd (ground (arith, f, (eq_iff j id).1 (sym ((eq_iff id j).0 q))))
      | inr g ↦ g
    ]

module _ {E P : Type 0} (loader : Loader E P) where
  pub none_of-ok :
      {A X : Type 0} (wrong : List X → LoadError E) (xs : List X) (a b : A)
      → none_of loader wrong xs a ≡ ok b
      → xs ≡ []
  unfolding none_of
  none_of-ok wrong [] a b h = refl
  none_of-ok wrong (x ∷ xs) a b h = absurd (ground (arith, h))

  pub is_distinct-build_nodes :
      (workflow : String) (ns : List RawNode) (nodes built : Nodes)
      → is_distinct (keys nodes) ≡ true
      → build_nodes loader workflow ns nodes ≡ ok built
      → is_distinct (keys built) ≡ true
  unfolding build_nodes
  is_distinct-build_nodes workflow [] nodes built d h =
      subst (λ x. is_distinct (keys x) ≡ true) (ok_inj nodes built h) d
  is_distinct-build_nodes workflow (n ∷ ns) nodes built d h =
      let (instance', e, h') =
        bind_ok (instance_of loader n (loader.services.registry n.type))
          (λ i.
            build_nodes loader workflow ns
              (add_node n.id (apply_overrides loader.services workflow n i) nodes))
          built h in
      is_distinct-build_nodes workflow ns
        (add_node n.id (apply_overrides loader.services workflow n instance') nodes) built
        (is_distinct-add_node n.id (apply_overrides loader.services workflow n instance') nodes d)
        h'

  -- Init is called on each node of the order, in that order.
  pub init_nodes-ok :
      (nodes : Nodes) (cs : List RawConn) (done ids all : List String)
      → init_nodes loader nodes cs done ids ≡ ok all
      → done ++ ids ≡ all
  unfolding init_nodes
  init_nodes-ok nodes cs done [] all h = append-nil done ∙ ok_inj done all h
  init_nodes-ok nodes cs done (id ∷ ids) all h =
      let (x, e, k) =
        bind_ok (init_node loader id (loader.init done id (make_peer_resolver id nodes cs)))
          (λ x. init_nodes loader nodes cs (done ++ id ∷ []) ids) all h in
      sym (append_assoc done (id ∷ []) ids) ∙ init_nodes-ok nodes cs (done ++ id ∷ []) ids all k
