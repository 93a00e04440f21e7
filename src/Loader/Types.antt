-- ===== src/Loader/Types.antt =====
-- The connections of a workflow, as validate.go of pkg/workflow/engine/loader holds them.
use ai_agent_go_service.Prelude.{String, ◌==◌, List, [], ◌∷◌, Option, some, none, if◌then◌else◌}

pub record Endpoint : Type 0 where
  pub node : String
  pub port : String

pub record RawConn : Type 0 where
  pub from : Endpoint
  pub to : Endpoint

-- A Go map with text keys, as the list of its entries in the order of one iteration.
module _ {ℓ} {A : Type ℓ} where
  abbrev pub lookup : String → List (String × A) → Option A
  lookup k [] = none
  lookup k ((j, a) ∷ m) = if j == k then some a else lookup k m

  abbrev pub keys : List (String × A) → List String
  keys [] = []
  keys ((j, a) ∷ m) = j ∷ keys m
