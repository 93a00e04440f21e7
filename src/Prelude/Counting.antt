-- ===== src/Prelude/Counting.antt =====
-- Lists of texts compared by how often each text stands in them.
use ai_agent_go_service.Prelude.Tests.{if◌then◌else◌}
use ai_agent_go_service.Prelude.Lists.{length, count, elem}
use Prim.Native.Nat.{suc, ◌+◌, ◌≤◌, ◌<◌}
use Prim.Native.String.{String}
use text.Mathlib.Text.{◌==◌}
use text.Mathlib.TextEquality.{eq_iff}
use text.Mathlib.TextPositions.{eq_refl}
use mathlib.Core.Path.{◌≡◌, refl}
use mathlib.Core.Bool.{Bool, true, false, not, ◌&&◌}
use mathlib.Core.List.{List, [], ◌∷◌, ◌++◌}
use native.Mathlib.Omega.{arith}

pub count-append : (v : String) (xs ys : List String) → count v (xs ++ ys) ≡ count v xs + count v ys
count-append v [] ys = omega arith
count-append v (x ∷ xs) ys = ground (arith, count-append v xs ys)

-- The list without the first place where the text stands.
remove : String → List String → List String
remove v [] = []
remove v (x ∷ xs) = let rest = remove v xs in if x == v then xs else x ∷ rest

length-remove :
    (v : String) (xs : List String) → 0 < count v xs → length xs ≡ suc (length (remove v xs))
unfolding remove
length-remove v [] h = omega arith
length-remove v (x ∷ xs) h = ground (arith, length-remove v xs)

count-remove :
    (v w : String) (xs : List String)
    → 0 < count v xs
    → count w xs ≡ (if v == w then suc (count w (remove v xs)) else count w (remove v xs))
unfolding remove
count-remove v w [] h = absurd (omega arith)
count-remove v w (x ∷ xs) h =
    ground (arith, count-remove v w xs, eq_iff x v, eq_iff v w, eq_iff x w)

-- A list that holds each text at most as often is at most as long.
pub length-le :
    (xs ys : List String) → ((v : String) → count v xs ≤ count v ys) → length xs ≤ length ys
length-le [] ys h = omega arith
length-le (x ∷ xs) ys h = omega (
  arith,
  length-remove x ys (occurs (h x)),
  length-le xs (remove x ys) (λ v. ground (arith, h v, count-remove x v ys (occurs (h x)))),
)
  where
    occurs : count x (x ∷ xs) ≤ count x ys → 0 < count x ys
    occurs k = ground (arith, eq_refl x)

-- If it is as long, it holds each text as often.
pub count-eq :
    (xs ys : List String) (v : String)
    → ((v : String) → count v xs ≤ count v ys)
    → length xs ≡ length ys
    → count v xs ≡ count v ys
count-eq [] [] v h e = refl
count-eq [] (y ∷ ys) v h e = absurd (omega arith)
count-eq (x ∷ xs) ys v h e = ground (
  arith,
  count-remove x v ys (occurs (h x)),
  count-eq xs (remove x ys) v (λ w. ground (arith, h w, count-remove x w ys (occurs (h x))))
      (omega (arith, length-remove x ys (occurs (h x)))),
)
  where
    occurs : count x (x ∷ xs) ≤ count x ys → 0 < count x ys
    occurs k = ground (arith, eq_refl x)

pub count_of_not_elem : (v : String) (xs : List String) → elem v xs ≡ false → count v xs ≡ 0
count_of_not_elem v [] h = refl
count_of_not_elem v (x ∷ xs) h = ground (arith, count_of_not_elem v xs)

pub elem_of_count : (v : String) (xs : List String) → 0 < count v xs → elem v xs ≡ true
elem_of_count v [] h = absurd (omega arith)
elem_of_count v (x ∷ xs) h = ground (arith, elem_of_count v xs)

pub count_of_elem : (v : String) (xs : List String) → elem v xs ≡ true → 0 < count v xs
count_of_elem v [] h = absurd (ground arith)
count_of_elem v (x ∷ xs) h = ground (arith, count_of_elem v xs)

-- No text stands twice in the list.
abbrev pub is_distinct : List String → Bool
is_distinct [] = true
is_distinct (x ∷ xs) = not (elem x xs) && is_distinct xs

pub count-le_one : (xs : List String) (v : String) → is_distinct xs ≡ true → count v xs ≤ 1
count-le_one [] v h = omega arith
count-le_one (x ∷ xs) v h = ground (arith, count-le_one xs v, count_of_not_elem x xs, eq_iff x v)
