-- ===== src/Loader/Derive/Laws.antt =====
-- What a key holds after a deep merge.
use ai_agent_go_service.Prelude.{
  String, ◌==◌, eq_iff, ◌≡◌, refl, ◌∙◌, ap, Option, some, none, if◌then◌else◌, Bool-cases, ◌⊎◌,
  subst, inl, inr, arith,
}
use ai_agent_go_service.Json.{
  Value, null, boolean, number, text, array, object, Items, no_items, item, Fields, no_fields,
  field, get, set, remove, HasField, first, later,
}
use ai_agent_go_service.Loader.Derive.{
  copy_value, copy_items, copy_fields, put, overlay_fields, overlay_value, deep_merge,
}

mutual
  unfolding copy_value

  copy_value-eq : (v : Value) → copy_value v ≡ v
  copy_value-eq (object m) = ap object (copy_fields-eq m)
  copy_value-eq (array a) = ap array (copy_items-eq a)
  copy_value-eq null = refl
  copy_value-eq (boolean b) = refl
  copy_value-eq (number n) = refl
  copy_value-eq (text s) = refl

  copy_items-eq : (a : Items) → copy_items a ≡ a
  copy_items-eq no_items = refl
  copy_items-eq (item v a) = cc (copy_value-eq v, copy_items-eq a)

  copy_fields-eq : (m : Fields) → copy_fields m ≡ m
  copy_fields-eq no_fields = refl
  copy_fields-eq (field k v m) = cc (copy_value-eq v, copy_fields-eq m)

pub get-set :
    (k j : String) (v : Value) (m : Fields)
    → get j (set k v m) ≡ (if k == j then some v else get j m)
unfolding get set
get-set k j v no_fields = refl
get-set k j v (field l u m) = ground (arith, eq_iff k j, eq_iff l k, eq_iff l j, get-set k j v m)

pub get-remove :
    (k j : String) (m : Fields) → get j (remove k m) ≡ (if k == j then none else get j m)
unfolding get remove
get-remove k j no_fields = ground arith
get-remove k j (field l u m) = ground (arith, eq_iff k j, eq_iff l k, eq_iff l j, get-remove k j m)

get-put :
    (k j : String) (o : Option Value) (m : Fields)
    → get j (put k o m) ≡ (if k == j then o else get j m)
unfolding put
get-put k j none m = get-remove k j m
get-put k j (some v) m = get-set k j v m

-- A decoded object has each key once.
abbrev pub IsMap : Fields → Type 0
IsMap no_fields = Unit
IsMap (field k v m) = (get k m ≡ none) × IsMap m

-- What the merge makes of one key.
unfoldable pub merged_value : Option Value → Option Value → Option Value
merged_value old none = old
merged_value old (some null) = none
merged_value (some (object bm)) (some (object om)) = some (object (deep_merge bm om))
merged_value old (some new) = some new

overlay_value-merged :
    (old : Option Value) (new : Value) → overlay_value old new ≡ merged_value old (some new)
unfolding overlay_value deep_merge merged_value
overlay_value-merged old null = refl
overlay_value-merged (some (object bm)) (object om) = refl
overlay_value-merged none (object om) = ap some (copy_value-eq (object om))
overlay_value-merged (some null) (object om) = ap some (copy_value-eq (object om))
overlay_value-merged (some (boolean b)) (object om) = ap some (copy_value-eq (object om))
overlay_value-merged (some (number b)) (object om) = ap some (copy_value-eq (object om))
overlay_value-merged (some (text b)) (object om) = ap some (copy_value-eq (object om))
overlay_value-merged (some (array b)) (object om) = ap some (copy_value-eq (object om))
overlay_value-merged none (boolean b) = refl
overlay_value-merged (some v) (boolean b) = refl
overlay_value-merged none (number b) = refl
overlay_value-merged (some v) (number b) = refl
overlay_value-merged none (text b) = refl
overlay_value-merged (some v) (text b) = refl
overlay_value-merged none (array b) = ap some (copy_value-eq (array b))
overlay_value-merged (some v) (array b) = ap some (copy_value-eq (array b))

get-overlay_fields :
    (out overlay : Fields) (k : String)
    → IsMap overlay
    → get k (overlay_fields out overlay) ≡ merged_value (get k out) (get k overlay)
unfolding overlay_fields merged_value get
get-overlay_fields out no_fields k d = refl
get-overlay_fields out (field l ov rest) k (n, d) =
    let o = overlay_value (get l out) ov in
    elim (Bool-cases (l == k)) [
      | inl c ↦ ground (
        arith,
        eq_iff l k,
        get-overlay_fields (put l o out) rest k d,
        get-put l k o out,
        overlay_value-merged (get k out) ov,
      )
      | inr c ↦ ground (arith, get-overlay_fields (put l o out) rest k d, get-put l k o out)
    ]

-- If the overlay is a map, a key of the merged object holds the overlay's value, unless the
-- overlay has no such key, and the base's value stays, the overlay says null, and the key is
-- gone, or both hold objects, which are merged in turn. The order of the overlay's keys does not
-- matter.
pub get-deep_merge :
    (base overlay : Fields) (k : String)
    → IsMap overlay
    → get k (deep_merge base overlay) ≡ merged_value (get k base) (get k overlay)
unfolding deep_merge
get-deep_merge base overlay k d =
    get-overlay_fields (copy_fields base) overlay k d
    ∙ ap (λ m. merged_value (get k m) (get k overlay)) (copy_fields-eq base)

overlay_value-text :
    (old : Option Value) (new : Value) (s : String)
    → overlay_value old new ≡ some (text s)
    → new ≡ text s
unfolding overlay_value copy_value
overlay_value-text old null s h = absurd (ground arith)
overlay_value-text (some (object bm)) (object om) s h = absurd (ground arith)
overlay_value-text none (object om) s h = absurd (ground arith)
overlay_value-text (some null) (object om) s h = absurd (ground arith)
overlay_value-text (some (boolean b)) (object om) s h = absurd (ground arith)
overlay_value-text (some (number b)) (object om) s h = absurd (ground arith)
overlay_value-text (some (text b)) (object om) s h = absurd (ground arith)
overlay_value-text (some (array b)) (object om) s h = absurd (ground arith)
overlay_value-text none (boolean b) s h = absurd (ground arith)
overlay_value-text (some v) (boolean b) s h = absurd (ground arith)
overlay_value-text none (number b) s h = absurd (ground arith)
overlay_value-text (some v) (number b) s h = absurd (ground arith)
overlay_value-text none (text b) s h = ground arith
overlay_value-text (some v) (text b) s h = ground arith
overlay_value-text none (array b) s h = absurd (ground arith)
overlay_value-text (some v) (array b) s h = absurd (ground arith)

overlay_fields-text :
    (out overlay : Fields) (k s : String)
    → get k (overlay_fields out overlay) ≡ some (text s)
    → (get k out ≡ some (text s)) ⊎ HasField k (text s) overlay
unfolding overlay_fields
overlay_fields-text out no_fields k s h = inl h
overlay_fields-text out (field l ov rest) k s h =
    let o = overlay_value (get l out) ov in
    elim (overlay_fields-text (put l o out) rest k s h) [
      | inr i ↦ inr (later i)
      | inl g ↦ elim (Bool-cases (l == k)) [
        | inr c ↦ inl (ground (arith, get-put l k o out))
        | inl c ↦
            (let v = overlay_value-text (get l out) ov s (ground (arith, get-put l k o out)) in
              let e : l ≡ k = ground (arith, eq_iff l k) in
              inr (
                subst (λ x. HasField x (text s) (field l ov rest)) e
                  (subst (λ x. HasField l x (field l ov rest)) v first)))
      ]
    ]

-- A text that stands under a key of a merged object stood there in one of the two.
pub deep_merge-text :
    (base overlay : Fields) (k s : String)
    → get k (deep_merge base overlay) ≡ some (text s)
    → (get k base ≡ some (text s)) ⊎ HasField k (text s) overlay
unfolding deep_merge
deep_merge-text base overlay k s h = elim (overlay_fields-text (copy_fields base) overlay k s h) [
  | inl g ↦ inl (subst (λ m. get k m ≡ some (text s)) (copy_fields-eq base) g)
  | inr i ↦ inr i
]

pub HasField-cases :
    {k l : String} {v u : Value} {m : Fields}
    → HasField k v (field l u m)
    → ((l ≡ k) × (u ≡ v)) ⊎ HasField k v m
HasField-cases first = inl (refl, refl)
HasField-cases (later h) = inr h

-- A text that the overlay has under a key hides the base's.
overlay_fields-hides :
    (overlay out : Fields) (k t s : String)
    → HasField k (text t) overlay
    → get k (overlay_fields out overlay) ≡ some (text s)
    → HasField k (text s) overlay
unfolding overlay_fields
overlay_fields-hides no_fields out k t s h g = elim h [ ]
overlay_fields-hides (field l ov rest) out k t s h g =
    let o = overlay_value (get l out) ov in
    elim (HasField-cases h) [
      | inr i ↦ later (overlay_fields-hides rest (put l o out) k t s i g)
      | inl (e, v) ↦ elim (overlay_fields-text (put l o out) rest k s g) [
        | inr i ↦ later i
        | inl q ↦
            (let w : ov ≡ text s =
                overlay_value-text (get l out) ov s
                  (ground (arith, get-put l k o out, eq_iff l k)) in
              subst (λ x. HasField x (text s) (field l ov rest)) e
                (subst (λ x. HasField l x (field l ov rest)) w first))
      ]
    ]

-- Of two merged objects a text that both have is the overlay's.
pub deep_merge-hides :
    (base overlay : Fields) (k t s : String)
    → HasField k (text t) overlay
    → get k (deep_merge base overlay) ≡ some (text s)
    → HasField k (text s) overlay
unfolding deep_merge
deep_merge-hides base overlay k t s h g = overlay_fields-hides overlay (copy_fields base) k t s h g
