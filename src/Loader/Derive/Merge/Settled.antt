-- ===== src/Loader/Derive/Merge/Settled.antt =====
-- The prompt of a node after one more entry of the overlay is merged into it.
use ai_agent_go_service.Prelude.{
  String, ◌==◌, eq_iff, ◌≡◌, refl, sym, ap, ◌∙◌, subst, true, false, Option, some, none, Bool-cases,
  ◌⊎◌, inl, inr, arith,
}
use ai_agent_go_service.Json.{
  Value, null, boolean, number, text, array, object, Fields, no_fields, field, get, remove,
  HasField, first, later, get_text, get_object, as_text, as_object,
}
use ai_agent_go_service.Loader.Derive.{deep_merge}
use ai_agent_go_service.Loader.Derive.Laws.{
  IsMap, get-deep_merge, get-remove, merged_value, deep_merge-text, deep_merge-hides,
  HasField-cases,
}
use ai_agent_go_service.Loader.Derive.Merge.{node_id, or_empty}
use ai_agent_go_service.Loader.Derive.Merge.Prompts.{as_text-some, get-HasField}

abbrev pub config_of : Fields → Fields
config_of n = or_empty (get_object "config" n)

-- The prompt that a node has.
abbrev pub prompt_of : String → Fields → String
prompt_of key n = get_text key (config_of n)

-- Whether some field of this key is a text.
pub text-cases :
    (k : String) (m : Fields)
    → ((s : String) × HasField k (text s) m) ⊎ ((s : String) → ¬ HasField k (text s) m)
text-cases k no_fields = inr (λ s h. elim h [ ])
text-cases k (field l (text t) m) = elim (text-cases k m) [
  | inl (s, h) ↦ inl (s, later h)
  | inr n ↦ elim (Bool-cases (l == k)) [
    | inl c ↦
        inl (t, subst (λ x. HasField x (text t) (field l (text t) m)) ((eq_iff l k).0 c) first)
    | inr c ↦
        inr (λ s h. elim (HasField-cases h) [
          | inl (e, _) ↦ ground (arith, eq_iff l k)
          | inr i ↦ n s i
        ])
  ]
]
text-cases k (field l (object o) m) = elim (text-cases k m) [
  | inl (s, h) ↦ inl (s, later h)
  | inr n ↦ inr (λ s h. elim (HasField-cases h) [ inl (_, e) ↦ ground arith | inr i ↦ n s i ])
]
text-cases k (field l (array o) m) = elim (text-cases k m) [
  | inl (s, h) ↦ inl (s, later h)
  | inr n ↦ inr (λ s h. elim (HasField-cases h) [ inl (_, e) ↦ ground arith | inr i ↦ n s i ])
]
text-cases k (field l (number o) m) = elim (text-cases k m) [
  | inl (s, h) ↦ inl (s, later h)
  | inr n ↦ inr (λ s h. elim (HasField-cases h) [ inl (_, e) ↦ ground arith | inr i ↦ n s i ])
]
text-cases k (field l (boolean o) m) = elim (text-cases k m) [
  | inl (s, h) ↦ inl (s, later h)
  | inr n ↦ inr (λ s h. elim (HasField-cases h) [ inl (_, e) ↦ ground arith | inr i ↦ n s i ])
]
text-cases k (field l null m) = elim (text-cases k m) [
  | inl (s, h) ↦ inl (s, later h)
  | inr n ↦ inr (λ s h. elim (HasField-cases h) [ inl (_, e) ↦ ground arith | inr i ↦ n s i ])
]

-- A prompt after one more entry: empty, the entry's, or the one before, if the entry has none.
pub data Settled (key new old : String) (cfg : Fields) : Type 0 where
  emptied : (new == "") ≡ true → Settled key new old cfg
  given : HasField key (text new) cfg → Settled key new old cfg
  kept : new ≡ old → ((s : String) → ¬ HasField key (text s) cfg) → Settled key new old cfg

-- The texts of one key of two configurations that are merged.
pub configs-Settled :
    (key : String) (bm om : Fields)
    → Settled key (get_text key (deep_merge bm om)) (get_text key bm) om
unfolding get_text
configs-Settled key bm om =
    let new = get_text key (deep_merge bm om) in
    elim (Bool-cases (new == "")) [
      | inl e ↦ emptied e
      | inr f ↦
          (let g = as_text-some (get key (deep_merge bm om)) f in
            elim (text-cases key om) [
              | inl (t, h) ↦ given (deep_merge-hides bm om key t new h g)
              | inr n ↦ elim (deep_merge-text bm om key new g) [
                | inl b ↦ kept (ap as_text (sym b)) n
                | inr i ↦ absurd (n new i)
              ]
            ])
    ]

pub replaced-Settled : (key old : String) (om : Fields) → Settled key (get_text key om) old om
unfolding get_text
replaced-Settled key old om = elim (Bool-cases (get_text key om == "")) [
  | inl e ↦ emptied e
  | inr f ↦ given (get-HasField key (text (get_text key om)) om (as_text-some (get key om) f))
]

-- Under `config`, by what the base and the entry hold there.
pub config-Settled :
    (key : String) (old new : Option Value)
    → Settled key
        (get_text key (or_empty (as_object (merged_value old new))))
        (get_text key (or_empty (as_object old)))
        (or_empty (as_object new))
unfolding merged_value as_object get_text get as_text
config-Settled key old none = kept refl (λ s h. elim h [ ])
config-Settled key old (some null) = emptied refl
config-Settled key (some (object bm)) (some (object om)) = configs-Settled key bm om
config-Settled key none (some (object om)) = replaced-Settled key "" om
config-Settled key (some null) (some (object om)) = replaced-Settled key "" om
config-Settled key (some (boolean b)) (some (object om)) = replaced-Settled key "" om
config-Settled key (some (number b)) (some (object om)) = replaced-Settled key "" om
config-Settled key (some (text b)) (some (object om)) = replaced-Settled key "" om
config-Settled key (some (array b)) (some (object om)) = replaced-Settled key "" om
config-Settled key none (some (boolean b)) = emptied refl
config-Settled key (some v) (some (boolean b)) = emptied refl
config-Settled key none (some (number b)) = emptied refl
config-Settled key (some v) (some (number b)) = emptied refl
config-Settled key none (some (text b)) = emptied refl
config-Settled key (some v) (some (text b)) = emptied refl
config-Settled key none (some (array b)) = emptied refl
config-Settled key (some v) (some (array b)) = emptied refl

-- One more entry of a node that stays.
pub merged-Settled :
    (key : String) (n on : Fields)
    → IsMap on
    → Settled key (prompt_of key (deep_merge n on)) (prompt_of key n) (config_of on)
unfolding get_object
merged-Settled key n on m =
    subst
      (λ v. Settled key (get_text key (or_empty (as_object v))) (prompt_of key n) (config_of on))
      (sym (get-deep_merge n on "config" m)) (config-Settled key (get "config" n) (get "config" on))

-- The mark is no part of the id or the configuration.
pub get-unmarked :
    (k : String) (on : Fields) → ("$remove" == k) ≡ false → get k (remove "$remove" on) ≡ get k on
get-unmarked k on f = get-remove "$remove" k on ∙ rw f refl

pub IsMap-remove : (k : String) (m : Fields) → IsMap m → IsMap (remove k m)
unfolding remove
IsMap-remove k no_fields h = tt
IsMap-remove k (field l v m) (n, h) = elim (Bool-cases (l == k)) [
  | inl c ↦ rw c (IsMap-remove k m h)
  | inr c ↦ rw c (ground (arith, get-remove k l m), IsMap-remove k m h)
]

pub merged_value-text :
    (o : Option Value) (s : String) → merged_value o (some (text s)) ≡ some (text s)
unfolding merged_value
merged_value-text none s = refl
merged_value-text (some v) s = refl

pub id_of-merged :
    (n on : Fields) → IsMap on → (node_id on == "") ≡ false → node_id (deep_merge n on) ≡ node_id on
unfolding get_text merged_value
id_of-merged n on m f = ap as_text (
    get-deep_merge n on "id" m
    ∙ ap (λ v. merged_value (get "id" n) v) (as_text-some (get "id" on) f)
    ∙ merged_value-text (get "id" n) (as_text (get "id" on)))
