-- ===== src/Base/Sorting.antt =====
-- `slices.Sort` on numbers: some sort that keeps the entries and puts them in order.
use the_return_of_the_odysse.Base.Tests.{leb, if◌then◌else◌}
use the_return_of_the_odysse.Base.Lists.{length}
use the_return_of_the_odysse.Base.Counting.{count, hit}
use Prim.Native.Nat.{ℕ, suc, ◌+◌, ◌≤◌}
use mathlib.Core.Path.{◌≡◌, refl}
use mathlib.Core.List.{List, [], ◌∷◌}
use native.Mathlib.Omega.{arith}

abbrev pub place : ℕ → List ℕ → List ℕ
place x [] = x ∷ []
place x (y ∷ ys) = if leb x y then x ∷ y ∷ ys else y ∷ place x ys

unfoldable pub sort : List ℕ → List ℕ
sort [] = []
sort (x ∷ xs) = place x (sort xs)

-- Every entry is at least `lo` and at most the next one.
abbrev pub Sorted : ℕ → List ℕ → Type 0
Sorted lo [] = Unit
Sorted lo (x ∷ xs) = (lo ≤ x) × Sorted x xs

Sorted-place : (lo x : ℕ) (xs : List ℕ) → lo ≤ x → Sorted lo xs → Sorted lo (place x xs)
Sorted-place lo x [] h s = (h, tt)
Sorted-place lo x (y ∷ ys) h s = ground (arith, Sorted-place y x ys)

pub sort-Sorted : (xs : List ℕ) → Sorted 0 (sort xs)
unfolding sort
sort-Sorted [] = tt
sort-Sorted (x ∷ xs) = Sorted-place 0 x (sort xs) (omega arith) (sort-Sorted xs)

count-place : (v x : ℕ) (xs : List ℕ) → count v (place x xs) ≡ hit v x + count v xs
count-place v x [] = refl
count-place v x (y ∷ ys) = ground (arith, count-place v x ys)

pub count-sort : (v : ℕ) (xs : List ℕ) → count v (sort xs) ≡ count v xs
unfolding sort
count-sort v [] = refl
count-sort v (x ∷ xs) = omega (arith, count-place v x (sort xs), count-sort v xs)

length-place : (x : ℕ) (xs : List ℕ) → length (place x xs) ≡ suc (length xs)
length-place x [] = refl
length-place x (y ∷ ys) = ground (arith, length-place x ys)

pub length-sort : (xs : List ℕ) → length (sort xs) ≡ length xs
unfolding sort
length-sort [] = refl
length-sort (x ∷ xs) = omega (arith, length-place x (sort xs), length-sort xs)

place_low : (lo x : ℕ) (xs : List ℕ) → x ≤ lo → Sorted lo xs → place x xs ≡ x ∷ xs
place_low lo x [] h s = refl
place_low lo x (y ∷ ys) h s = ground arith

-- A list in order stays as it is.
pub sort_of_Sorted : (lo : ℕ) (xs : List ℕ) → Sorted lo xs → sort xs ≡ xs
unfolding sort
sort_of_Sorted lo [] s = refl
sort_of_Sorted lo (x ∷ xs) s = rw (sort_of_Sorted x xs s.1) (place_low x x xs (omega arith) s.1)
