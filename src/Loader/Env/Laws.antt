-- ===== src/Loader/Env/Laws.antt =====
-- When no error is reported.
use ai_agent_go_service.Prelude.{
  ℕ, suc, String, ◌==◌, ◌≡◌, sym, subst, false, List, [], ◌∷◌, append-eq-nil, some, Bool-cases,
  Option-cases, ◌⊎◌, inl, inr, arith,
}
use mathlib.Core.List.{Memᴰ}
use Prim.Native.String.{◌++◌ as concat}
use ai_agent_go_service.Json.{
  Value, text, Items, item, Fields, field, HasField, first, later, HasItem, head, tail, Within,
  whole, in_field, in_item,
}
use ai_agent_go_service.Loader.Env.{
  Env, Piece, reference, value_of, default_for, replace, replace_all, walk, walk_fields, walk_items,
  resolve,
}

module _ (env : Env) where
  open env use {split, lookup_env, itoa}

  walk_fields-field :
      (path k : String) (v : Value) (fs : Fields)
      → HasField k v fs
      → (walk_fields env path fs).1 ≡ []
      → (full : String) × ((walk env full v).1 ≡ [])
  unfolding walk
  walk_fields-field path _ _ _ (first {k} {v} {fs}) h =
      let full = concat path (concat "." k) in
      let (w, s) = append-eq-nil (walk env full v).1 (walk_fields env path fs).1 h in (full, w)
  walk_fields-field path k v (field l u fs) (later i) h =
      let full = concat path (concat "." l) in
      let (w, s) = append-eq-nil (walk env full u).1 (walk_fields env path fs).1 h in
      walk_fields-field path k v fs i s

  walk_items-item :
      (path : String) (n : ℕ) (v : Value) (xs : Items)
      → HasItem v xs
      → (walk_items env path n xs).1 ≡ []
      → (full : String) × ((walk env full v).1 ≡ [])
  unfolding walk
  walk_items-item path n _ _ (head {v} {xs}) h =
      let full = concat path (concat "[" (concat (itoa n) "]")) in
      let (w, s) = append-eq-nil (walk env full v).1 (walk_items env path (suc n) xs).1 h in
      (full, w)
  walk_items-item path n v (item u xs) (tail i) h =
      let full = concat path (concat "[" (concat (itoa n) "]")) in
      let (w, s) = append-eq-nil (walk env full u).1 (walk_items env path (suc n) xs).1 h in
      walk_items-item path (suc n) v xs i s

  walk-Within :
      (u v : Value) (path : String)
      → Within u v
      → (walk env path v).1 ≡ []
      → (full : String) × ((walk env full u).1 ≡ [])
  unfolding walk
  walk-Within u v path whole h = (path, h)
  walk-Within _ _ path (in_field {k} {u} {w} {fs} i o) h =
      let (full, r) = walk_fields-field path k w fs i h in walk-Within u w full o r
  walk-Within _ _ path (in_item {u} {w} {xs} i o) h =
      let (full, r) = walk_items-item path 0 w xs i h in walk-Within u w full o r

  replace_all-piece :
      (path : String) (p : Piece) (ps : List Piece)
      → Memᴰ p ps
      → (replace_all env path ps).1 ≡ []
      → (replace env path p).1 ≡ []
  unfolding replace_all
  replace_all-piece path p (q ∷ ps) (Memᴰ.head e) h =
      let (a, b) = append-eq-nil (replace env path q).1 (replace_all env path ps).1 h in
      subst (λ x. (replace env path x).1 ≡ []) (sym e) a
  replace_all-piece path p (q ∷ ps) (Memᴰ.tail i) h =
      let (a, b) = append-eq-nil (replace env path q).1 (replace_all env path ps).1 h in
      replace_all-piece path p ps i b
  replace_all-piece path p [] i h = elim i [ ]

  -- A reference without an error has a value in the environment that is not empty, or a default.
  replace-clean :
      (path match var def : String)
      → (replace env path (reference match var def)).1 ≡ []
      → ((v : String) × ((v == "") ≡ false) × (lookup_env var ≡ some v)) ⊎ ((def == "") ≡ false)
  unfolding replace value_of default_for
  replace-clean path match var def h = elim (Option-cases (lookup_env var)) [
    | inl n ↦ elim (Bool-cases (def == "")) [ inl d ↦ absurd (ground arith) | inr d ↦ inr d ]
    | inr (v, s) ↦ elim (Bool-cases (v == "")) [
      | inr b ↦ inl (v, b, s)
      | inl b ↦ elim (Bool-cases (def == "")) [ inl d ↦ absurd (ground arith) | inr d ↦ inr d ]
    ]
  ]

  -- If no error is reported, every reference in every text of the document, at any depth, has a
  -- value in the environment that is not empty, or a default.
  pub resolve-clean :
      (v : Value) (s match var def : String)
      → (resolve env v).1 ≡ []
      → Within (text s) v
      → Memᴰ (reference match var def) (split s)
      → ((val : String) × ((val == "") ≡ false) × (lookup_env var ≡ some val))
        ⊎ ((def == "") ≡ false)
  unfolding resolve walk
  resolve-clean v s match var def h o i =
      let (full, r) = walk-Within (text s) v "$" o h in
      replace-clean full match var def
        (replace_all-piece full (reference match var def) (split s) i r)
