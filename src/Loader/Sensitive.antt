-- ===== src/Loader/Sensitive.antt =====
-- sensitive.go: secrets must be named by an environment variable. The regular expression and the
-- searches of package strings are a record of the caller.
pub mod Laws
pub mod Examples
use ai_agent_go_service.Prelude.{
  ℕ, suc, String, Bool, not, ◌&&◌, List, [], ◌∷◌, ◌++◌, if◌then◌else◌, false,
}
use Prim.Native.String.{◌++◌ as concat}
use ai_agent_go_service.Json.{
  Value, object, array, text, Items, no_items, item, Fields, no_fields, field,
}

-- `is_sensitive` is sensitiveNamePattern, `has_env_suffix` strings.HasSuffix with "Env",
-- `has_reference` strings.Contains with "${", and `itoa` prints an index.
pub record Names : Type 0 where
  pub is_sensitive : String → Bool
  pub has_env_suffix : String → Bool
  pub has_reference : String → Bool
  pub itoa : ℕ → String

pub data SensitiveError : Type 0 where
  literal_value env_reference : String → SensitiveError

module _ (names : Names) where
  open names use {is_sensitive, has_env_suffix, has_reference, itoa}

  pub is_reference : Value → Bool
  is_reference (text s) = has_reference s
  is_reference _ = false

  pub check_field : String → String → Value → List SensitiveError
  unfolding is_reference
  check_field full k v =
      if is_sensitive k
      then (if has_env_suffix k
          then (if is_reference v then env_reference full ∷ [] else [])
          else literal_value full ∷ [])
      else []

  unfoldable mutual
    unfolding check_field

    pub walk : String → Value → List SensitiveError
    walk path (object fs) = walk_fields path fs
    walk path (array xs) = walk_items path 0 xs
    walk path v = []

    pub walk_fields : String → Fields → List SensitiveError
    walk_fields path no_fields = []
    walk_fields path (field k v fs) =
        check_field (concat path (concat "." k)) k v
        ++ (walk (concat path (concat "." k)) v ++ walk_fields path fs)

    pub walk_items : String → ℕ → Items → List SensitiveError
    walk_items path i no_items = []
    walk_items path i (item v xs) =
        walk (concat path (concat "[" (concat (itoa i) "]"))) v ++ walk_items path (suc i) xs

  unfoldable pub validate_sensitive_fields : Value → List SensitiveError
  unfolding walk
  validate_sensitive_fields v = walk "$" v
