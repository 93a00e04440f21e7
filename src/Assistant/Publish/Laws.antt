-- ===== src/Assistant/Publish/Laws.antt =====
-- What holds of the agents that are published.
use ai_agent_go_service.Prelude.{
  ◌≡◌, refl, ap, subst, ◌∙◌, String, ◌==◌, true, false, not, ◌&&◌, ◌||◌, elem, List, [], ◌∷◌,
  Option, some, none, All, Bool-cases, inl, inr, arith, Result, ok, err, ◌>>=◌,
}
use ai_agent_go_service.Prelude.Counting.{is_distinct}
use ai_agent_go_service.Loader.Load.Built.{bind_ok, ok_inj}
use ai_agent_go_service.Engine.Access.{IndexStatus, IndexAccess, no_access, bound, unbound}
use ai_agent_go_service.Assistant.Publish.{
  ChatEndpoint, nats_chat, no_trigger, other_trigger, Trigger, WorkflowNode, Workflow, CardSpec,
  Config, AgentAccess, Skip, new_failed, start_failed, Published, Runtime, names, Services,
  first_client_only, no_client_only, endpoint_of, eligibility, access_of, agent_access,
  build_card_spec, fresh, has_subject, done_unless, launched, guarded, publish, noted, publish_if,
  start,
}

-- The functions that guard an agent: that of the service, or that of its index.
pub data Guards (cfg : Config) (trim : String → String) (ia : IndexAccess)
    : AgentAccess → Type 0 where
  by_service :
      ia.status ≡ no_access
      → Guards cfg trim ia (record { app = cfg.app_id; function = cfg.function_id })
  by_index :
      ia.status ≡ bound
      → (trim ia.function_id == "") ≡ false
      → Guards cfg trim ia (record { app = cfg.app_id; function = ia.function_id })

-- What makes a workflow fit to be an agent.
pub record Fit (services : Services) (cfg : Config) (p : Published) : Type 0 where
  pub wf : Workflow
  pub found : services.workflow p.workflow_id ≡ some wf
  pub chats : wf.trigger ≡ nats_chat p.endpoint
  pub streams :
      (p.endpoint.response_mode == "streaming" || p.endpoint.allows_response_mode_override) ≡ true
  pub answerable : All (λ n. n.client_only ≡ false) wf.nodes
  pub reachable : (p.endpoint.chat_subject == "") ≡ false
  pub guards : Guards cfg services.trim wf.index_access p.access

none_client_only :
    (ns : List WorkflowNode) → first_client_only ns ≡ none → All (λ n. n.client_only ≡ false) ns
unfolding first_client_only
none_client_only [] h = tt
none_client_only (n ∷ ns) h = elim (Bool-cases n.client_only) [
  | inl t ↦ absurd (ground (arith, t, h))
  | inr f ↦ (f, none_client_only ns (ground (arith, f, h)))
]

pub record Eligible (t : Trigger) (ns : List WorkflowNode) (ep : ChatEndpoint) : Type 0 where
  pub chats : t ≡ nats_chat ep
  pub streams : (ep.response_mode == "streaming" || ep.allows_response_mode_override) ≡ true
  pub answerable : All (λ n. n.client_only ≡ false) ns

no_client_only-ok :
    (o : Option String) (ep ep' : ChatEndpoint)
    → no_client_only o ep ≡ ok ep'
    → (o ≡ none) × (ep ≡ ep')
unfolding no_client_only
no_client_only-ok none ep ep' h = (refl, ok_inj ep ep' h)
no_client_only-ok (some id) ep ep' h = absurd (ground (arith, h))

endpoint_of-Eligible :
    (t : Trigger) (ns : List WorkflowNode) (ep : ChatEndpoint)
    → endpoint_of t ns ≡ ok ep
    → Eligible t ns ep
unfolding endpoint_of
endpoint_of-Eligible no_trigger ns ep h = absurd (ground (arith, h))
endpoint_of-Eligible other_trigger ns ep h = absurd (ground (arith, h))
endpoint_of-Eligible (nats_chat e) ns ep h =
    elim (Bool-cases
      (not (e.response_mode == "streaming") && not e.allows_response_mode_override)) [
        | inl t ↦ absurd (ground (arith, t, h))
        | inr f ↦
            let (none', same) =
              no_client_only-ok (first_client_only ns) e ep (ground (arith, f, h)) in
            record {
              chats = ap nats_chat same;
              streams =
                  subst
                    (λ x.
                      (x.response_mode == "streaming" || x.allows_response_mode_override) ≡ true)
                    same (ground (arith, f));
              answerable = none_client_only ns none';
            }
      ]

module _ (services : Services) (cfg : Config) where
  access_of-Guards :
      (s : IndexStatus) (ia : IndexAccess) (a : AgentAccess)
      → ia.status ≡ s
      → access_of services cfg s ia ≡ ok a
      → Guards cfg services.trim ia a
  unfolding access_of
  access_of-Guards no_access ia a e h =
      subst (Guards cfg services.trim ia) (ok_inj _ a h) (by_service e)
  access_of-Guards bound ia a e h = elim (Bool-cases (services.trim ia.function_id == "")) [
    | inl t ↦ absurd (ground (arith, t, h))
    | inr f ↦
        subst (Guards cfg services.trim ia)
          (ok_inj {X = Skip} (record { app = cfg.app_id; function = ia.function_id }) a
            (ground (arith, f, h)))
          (by_index e f)
  ]
  access_of-Guards unbound ia a e h = absurd (ground (arith, h))

  done_unless-ok :
      {A : Type 0} (wrong : String → Skip) (o : Option String) (a b : A)
      → done_unless services cfg wrong o a ≡ ok b
      → a ≡ b
  unfolding done_unless
  done_unless-ok wrong none a b h = ok_inj a b h
  done_unless-ok wrong (some e) a b h = absurd (ground (arith, h))

  has_subject-ok :
      (ep ep' : ChatEndpoint)
      → has_subject services cfg ep ≡ ok ep'
      → (ep ≡ ep') × ((ep.chat_subject == "") ≡ false)
  unfolding has_subject
  has_subject-ok ep ep' h = elim (Bool-cases (ep.chat_subject == "")) [
    | inl t ↦ absurd (ground (arith, t, h))
    | inr f ↦ (ok_inj {X = Skip} ep ep' (ground (arith, f, h)), f)
  ]

  fresh-ok :
      (seen : List String) (c c' : CardSpec)
      → fresh services cfg seen c ≡ ok c'
      → (c ≡ c') × (elem c.name seen ≡ false)
  unfolding fresh
  fresh-ok seen c c' h = elim (Bool-cases (elem c.name seen)) [
    | inl t ↦ absurd (ground (arith, t, h))
    | inr f ↦ (ok_inj {X = Skip} c c' (ground (arith, f, h)), f)
  ]

  launched-ok : (p q : Published) → launched services cfg p ≡ ok q → p ≡ q
  unfolding launched
  launched-ok p q h =
      let (r, e, k) =
        bind_ok (done_unless services cfg new_failed (services.agent_new p.name) p)
          (λ r. done_unless services cfg start_failed (services.agent_start r.name) r) q h in
      done_unless-ok new_failed (services.agent_new p.name) p r e
      ∙ done_unless-ok start_failed (services.agent_start r.name) r q k

  guarded-Fit :
      (id : String) (wf : Workflow) (ep : ChatEndpoint) (spec : CardSpec) (p : Published)
      → services.workflow id ≡ some wf
      → Eligible wf.trigger wf.nodes ep
      → guarded services cfg id wf ep spec ≡ ok p
      → (spec.name ≡ p.name) × Fit services cfg p
  unfolding guarded agent_access
  guarded-Fit id wf ep spec p found el h =
      let agent : ChatEndpoint → AgentAccess → Published =
        λ e a. record { name = spec.name; workflow_id = id; endpoint = e; access = a } in
      let on_access : ChatEndpoint → AgentAccess → Result Skip Published =
        λ e a. launched services cfg (agent e a) in
      let (ep', e1, k1) =
        bind_ok (has_subject services cfg ep)
          (λ e. agent_access services cfg wf.index_access >>= on_access e) p h in
      let (a, e2, k2) = bind_ok (agent_access services cfg wf.index_access) (on_access ep') p k1 in
      let (same, reach) = has_subject-ok ep ep' e1 in
      let fit : Fit services cfg (agent ep a) = record {
        wf = wf;
        found = found;
        chats = el.chats;
        streams = el.streams;
        answerable = el.answerable;
        reachable = reach;
        guards = access_of-Guards wf.index_access.status wf.index_access a refl e2;
      } in
      let q : agent ep a ≡ p = ap (λ x. agent x a) same ∙ launched-ok (agent ep' a) p k2 in
      (ap (λ x. x.name) q, subst (Fit services cfg) q fit)

  publish-Fit :
      (id : String) (seen : List String) (wf : Workflow) (p : Published)
      → services.workflow id ≡ some wf
      → publish services cfg seen id wf ≡ ok p
      → (elem p.name seen ≡ false) × Fit services cfg p
  unfolding publish eligibility
  publish-Fit id seen wf p found h =
      let on_fresh : ChatEndpoint → CardSpec → Result Skip Published =
        λ ep spec. guarded services cfg id wf ep spec in
      let on_card : ChatEndpoint → CardSpec → Result Skip Published =
        λ ep spec. fresh services cfg seen spec >>= on_fresh ep in
      let (ep, e1, k1) =
        bind_ok (endpoint_of wf.trigger wf.nodes)
          (λ ep. build_card_spec services cfg wf >>= on_card ep) p h in
      let (spec, e2, k2) = bind_ok (build_card_spec services cfg wf) (on_card ep) p k1 in
      let (spec', e3, k3) = bind_ok (fresh services cfg seen spec) (on_fresh ep) p k2 in
      let (same, new) = fresh-ok seen spec spec' e3 in
      let (named, fit) =
        guarded-Fit id wf ep spec' p found (endpoint_of-Eligible wf.trigger wf.nodes ep e1) k3 in
      (subst (λ n. elem n seen ≡ false) (ap (λ c. c.name) same ∙ named) new, fit)

  -- The names are distinct, and each agent comes from a workflow that is fit.
  abbrev pub Sound : Runtime → Type 0
  Sound rt = (is_distinct (names rt.agents) ≡ true) × All (Fit services cfg) rt.agents

  noted-Sound :
      (id : String) (rt : Runtime) (wf : Workflow) (r : Result Skip Published)
      → services.workflow id ≡ some wf
      → publish services cfg (names rt.agents) id wf ≡ r
      → Sound rt
      → Sound (noted services cfg id rt r)
  unfolding noted
  noted-Sound id rt wf (err why) found e h = h
  noted-Sound id rt wf (ok p) found e (d, fits) =
      let (new, fit) = publish-Fit id (names rt.agents) wf p found e in
      (ground (arith, new, d), (fit, fits))

  publish_if-Sound :
      (id : String) (o : Option Workflow) (rt : Runtime)
      → services.workflow id ≡ o
      → Sound rt
      → Sound (publish_if services cfg id o rt)
  unfolding publish_if
  publish_if-Sound id none rt found h = h
  publish_if-Sound id (some wf) rt found h = noted-Sound id rt wf _ found refl h

  -- However the library that announces agents answers, and whatever was published soundly before,
  -- the published agents have distinct names, and each comes from a workflow of the engine whose trigger is a chat
  -- that can stream and has a subject, none of whose nodes is answered by a client alone, and
  -- whose access is that of the service, for a workflow without an index, or a function of its
  -- index that is not blank.
  pub start-Sound :
      (ids : List String) (rt : Runtime) → Sound rt → Sound (start services cfg ids rt)
  unfolding start
  start-Sound [] rt h = h
  start-Sound (id ∷ ids) rt h =
      start-Sound ids (publish_if services cfg id (services.workflow id) rt)
        (publish_if-Sound id (services.workflow id) rt refl h)
