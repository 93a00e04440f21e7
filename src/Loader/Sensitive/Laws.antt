-- ===== src/Loader/Sensitive/Laws.antt =====
-- What a document without errors keeps out.
use ai_agent_go_service.Prelude.{
  ℕ, suc, String, ◌≡◌, true, false, [], ◌++◌, append-eq-nil, Bool-cases, inl, inr, arith,
}
use Prim.Native.String.{◌++◌ as concat}
use ai_agent_go_service.Json.{
  Value, object, Items, item, Fields, field, HasField, first, later, HasItem, head, tail, Within,
  whole, in_field, in_item,
}
use ai_agent_go_service.Loader.Sensitive.{
  Names, is_reference, check_field, walk, walk_fields, walk_items, validate_sensitive_fields,
}

module _ (names : Names) where
  open names use {is_sensitive, has_env_suffix, has_reference, itoa}

  walk_fields-field :
      (path k : String) (v : Value) (fs : Fields)
      → HasField k v fs
      → walk_fields names path fs ≡ []
      → (full : String) × (check_field names full k v ≡ []) × (walk names full v ≡ [])
  unfolding walk
  walk_fields-field path _ _ _ (first {k} {v} {fs}) h =
      let full = concat path (concat "." k) in
      let (c, r) =
        append-eq-nil (check_field names full k v) (walk names full v ++ walk_fields names path fs)
          h in
      let (w, s) = append-eq-nil (walk names full v) (walk_fields names path fs) r in (full, c, w)
  walk_fields-field path k v (field l u fs) (later i) h =
      let full = concat path (concat "." l) in
      let (c, r) =
        append-eq-nil (check_field names full l u) (walk names full u ++ walk_fields names path fs)
          h in
      let (w, s) = append-eq-nil (walk names full u) (walk_fields names path fs) r in
      walk_fields-field path k v fs i s

  walk_items-item :
      (path : String) (n : ℕ) (v : Value) (xs : Items)
      → HasItem v xs
      → walk_items names path n xs ≡ []
      → (full : String) × (walk names full v ≡ [])
  unfolding walk
  walk_items-item path n _ _ (head {v} {xs}) h =
      let full = concat path (concat "[" (concat (itoa n) "]")) in
      let (w, s) = append-eq-nil (walk names full v) (walk_items names path (suc n) xs) h in
      (full, w)
  walk_items-item path n v (item u xs) (tail i) h =
      let full = concat path (concat "[" (concat (itoa n) "]")) in
      let (w, s) = append-eq-nil (walk names full u) (walk_items names path (suc n) xs) h in
      walk_items-item path (suc n) v xs i s

  walk-Within :
      (u v : Value) (path : String)
      → Within u v
      → walk names path v ≡ []
      → (full : String) × (walk names full u ≡ [])
  unfolding walk
  walk-Within u v path whole h = (path, h)
  walk-Within _ _ path (in_field {k} {u} {w} {fs} i o) h =
      let (full, c, r) = walk_fields-field path k w fs i h in walk-Within u w full o r
  walk-Within _ _ path (in_item {u} {w} {xs} i o) h =
      let (full, r) = walk_items-item path 0 w xs i h in walk-Within u w full o r

  check_field-clean :
      (full k : String) (v : Value)
      → check_field names full k v ≡ []
      → is_sensitive k ≡ true
      → (has_env_suffix k ≡ true) × (is_reference names v ≡ false)
  unfolding check_field
  check_field-clean full k v h s = elim (Bool-cases (has_env_suffix k)) [
    | inr e ↦ absurd (ground arith)
    | inl e ↦ elim (Bool-cases (is_reference names v)) [
      | inl r ↦ absurd (ground arith)
      | inr r ↦ (e, r)
    ]
  ]

  -- In a document without errors every field with a sensitive name, at any depth, ends in "Env",
  -- and its value is no reference to a variable.
  pub validate_sensitive_fields-clean :
      (v : Value) (fs : Fields) (k : String) (w : Value)
      → validate_sensitive_fields names v ≡ []
      → Within (object fs) v
      → HasField k w fs
      → is_sensitive k ≡ true
      → (has_env_suffix k ≡ true) × (is_reference names w ≡ false)
  unfolding validate_sensitive_fields walk
  validate_sensitive_fields-clean v fs k w h o i s =
      let (full, r) = walk-Within (object fs) v "$" o h in
      let (at, c, t) = walk_fields-field full k w fs i r in check_field-clean at k w c s
