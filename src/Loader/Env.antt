-- ===== src/Loader/Env.antt =====
-- envsubst.go: environment variables in the texts of a document. How the regular expression splits
-- a text into matches and what lies between them is a parameter, and so is the environment.
pub mod Laws
pub mod Examples
use ai_agent_go_service.Prelude.{
  ℕ, suc, String, ◌==◌, Bool, not, ◌&&◌, List, [], ◌∷◌, ◌++◌, Option, some, none, if◌then◌else◌,
}
use Prim.Native.String.{◌++◌ as concat}
use ai_agent_go_service.Json.{
  Value, object, array, text, Items, no_items, item, Fields, no_fields, field,
}

-- A part of a text: as it is, or a match with its variable and its default.
pub data Piece : Type 0 where
  literal : String → Piece
  reference : String → String → String → Piece

pub record ResolveError : Type 0 where
  pub path : String
  pub var : String

pub record Env : Type 0 where
  pub split : String → List Piece
  pub lookup_env : String → Option String
  pub itoa : ℕ → String

module _ (env : Env) where
  open env use {split, lookup_env, itoa}

  -- The value of a variable, unless it is unset or empty.
  value_of : Option String → Option String
  value_of none = none
  value_of (some v) = if v == "" then none else some v

  default_for : String → String → String → String → String × List ResolveError
  default_for path match var def =
      if def == "" then (match, record { path = path; var = var } ∷ []) else (def, [])

  -- The function that is called on each match.
  pub replace : String → Piece → String × List ResolveError
  unfolding value_of default_for
  replace path (literal s) = (s, [])
  replace path (reference match var def) = elim (value_of (lookup_env var)) [
    | some v ↦ (v, [])
    | none ↦ default_for path match var def
  ]

  pub replace_all : String → List Piece → String × List ResolveError
  unfolding replace
  replace_all path [] = ("", [])
  replace_all path (p ∷ ps) =
      let (s, errs) = replace path p in
      let (rest, errs') = replace_all path ps in (concat s rest, errs ++ errs')

  unfoldable mutual
    unfolding replace_all

    pub walk : String → Value → Value × List ResolveError
    walk path (object fs) = (let (fs', errs) = walk_fields path fs in (object fs', errs))
    walk path (array xs) = (let (xs', errs) = walk_items path 0 xs in (array xs', errs))
    walk path (text s) = (let (s', errs) = replace_all path (split s) in (text s', errs))
    walk path v = (v, [])

    pub walk_fields : String → Fields → Fields × List ResolveError
    walk_fields path no_fields = (no_fields, [])
    walk_fields path (field k v fs) =
        let (v', errs) = walk (concat path (concat "." k)) v in
        let (fs', errs') = walk_fields path fs in (field k v' fs', errs ++ errs')

    pub walk_items : String → ℕ → Items → Items × List ResolveError
    walk_items path i no_items = (no_items, [])
    walk_items path i (item v xs) =
        let (v', errs) = walk (concat path (concat "[" (concat (itoa i) "]"))) v in
        let (xs', errs') = walk_items path (suc i) xs in (item v' xs', errs ++ errs')

  unfoldable pub resolve : Value → Value × List ResolveError
  unfolding walk
  resolve v = walk "$" v
