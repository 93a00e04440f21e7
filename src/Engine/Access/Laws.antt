-- ===== src/Engine/Access/Laws.antt =====
-- When a workflow is bound to a function.
use ai_agent_go_service.Prelude.{
  String, ◌==◌, ◌≡◌, false, not, ◌&&◌, List, [], ◌∷◌, ◌++◌, Option, some, none, ok, All,
  if◌then◌else◌, ◌⊎◌,
}
use ai_agent_go_service.Engine.Access.{
  Wiring, IndexFunctionProvider, bound, policy_provider, lookup_function, resolve_from, refused,
  join, different_functions,
}

module _ (wiring : Wiring) where
  open wiring use {scoped, policy_peers, provider_of, trim}

  -- What a node says of the guard: nothing, if it is not scoped or its one policy did not opt
  -- in, or the function that its policy names for its pattern.
  pub data Guards : String → Option String → Type 0 where
    unscoped : {id : String} → scoped id ≡ none → Guards id none
    opted_out :
        {id pattern : String}
        → scoped id ≡ some pattern
        → policy_provider wiring id ≡ ok none
        → Guards id none
    guarded :
        {id pattern fn : String} {p : IndexFunctionProvider}
        → scoped id ≡ some pattern
        → policy_provider wiring id ≡ ok (some p)
        → lookup_function wiring p pattern ≡ ok fn
        → Guards id (some fn)

  -- The node is silent or names this function.
  pub Agrees : String → String → Type 0
  Agrees fn id = Guards id none ⊎ Guards id (some fn)

  -- Some node names this function.
  pub Names : String → List String → Type 0
  Names fn [] = ⊥
  Names fn (id ∷ ids) = Guards id (some fn) ⊎ Names fn ids

  -- The access is bound to f by the rest of the loop.
  abbrev Bound : List String → List String → String → String → Type 0
  Bound ids ps fn f =
      let r = resolve_from wiring ids ps fn in (r.status ≡ bound) × (r.function_id ≡ f)

  -- The step at a node that names a function, for some pattern.
  abbrev Taken : String → List String → List String → String → String → Type 0
  Taken id ids ps fn found =
      (pattern : String) × ((found == "") ≡ false)
      × (resolve_from wiring (id ∷ ids) ps fn ≡ (
          if not (fn == "") && not (found == fn)
          then refused (join (ps ++ pattern ∷ [])) different_functions
          else resolve_from wiring ids (ps ++ pattern ∷ []) found))

  -- Some function is named, by all nodes that name one.
  pub Agreed : List String → String → Type 0
  Agreed ids f = All (Agrees f) ids × Names f ids
