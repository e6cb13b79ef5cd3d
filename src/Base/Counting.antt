-- ===== src/Base/Counting.antt =====
-- How often a number stands in a list, and writes at an index.
use the_return_of_the_odysse.Base.Tests.{◌==◌, if◌then◌else◌}
use the_return_of_the_odysse.Base.Lists.{length, get_elem?, take}
use Prim.Native.Nat.{ℕ, zero, suc, ◌+◌, ◌≤◌, ◌<◌}
use mathlib.Core.Path.{◌≡◌, refl, ap}
use mathlib.Core.Bool.{Bool, true, false}
use mathlib.Core.Option.{some}
use mathlib.Core.List.{List, [], ◌∷◌, ◌++◌}
use native.Mathlib.Omega.{arith}

-- 1 for the same number, 0 for another.
abbrev pub hit : ℕ → ℕ → ℕ
hit v x = if x == v then 1 else 0

abbrev pub count : ℕ → List ℕ → ℕ
count v [] = 0
count v (x ∷ xs) = hit v x + count v xs

-- `slices.Contains`
abbrev pub contains : ℕ → List ℕ → Bool
contains v [] = false
contains v (x ∷ xs) = if x == v then true else contains v xs

-- `xs[i] = v`; out of range, where Go panics, nothing is written.
abbrev pub set : List ℕ → ℕ → ℕ → List ℕ
set [] i v = []
set (x ∷ xs) zero v = v ∷ xs
set (x ∷ xs) (suc i) v = x ∷ set xs i v

pub count-append : (v : ℕ) (xs ys : List ℕ) → count v (xs ++ ys) ≡ count v xs + count v ys
count-append v [] ys = omega arith
count-append v (x ∷ xs) ys = omega (arith, count-append v xs ys)

pub count-take_le : (v n : ℕ) (xs : List ℕ) → count v (take n xs) ≤ count v xs
count-take_le v zero xs = omega arith
count-take_le v (suc n) [] = omega arith
count-take_le v (suc n) (x ∷ xs) = omega (arith, count-take_le v n xs)

pub count-set :
    (v i a b : ℕ) (xs : List ℕ)
    → get_elem? xs i ≡ some a
    → count v (set xs i b) + hit v a ≡ count v xs + hit v b
count-set v i a b [] h = cc
count-set v zero a b (x ∷ xs) h = ground arith
count-set v (suc i) a b (x ∷ xs) h = omega (arith, count-set v i a b xs h)

pub get_elem?-set_self :
    (xs : List ℕ) (i v a : ℕ) → get_elem? xs i ≡ some a → get_elem? (set xs i v) i ≡ some v
get_elem?-set_self [] i v a h = cc
get_elem?-set_self (x ∷ xs) zero v a h = refl
get_elem?-set_self (x ∷ xs) (suc i) v a h = get_elem?-set_self xs i v a h

pub get_elem?-set_other :
    (xs : List ℕ) (i j v : ℕ) → (i == j) ≡ false → get_elem? (set xs i v) j ≡ get_elem? xs j
get_elem?-set_other [] i j v h = refl
get_elem?-set_other (x ∷ xs) zero zero v h = cc
get_elem?-set_other (x ∷ xs) zero (suc j) v h = refl
get_elem?-set_other (x ∷ xs) (suc i) zero v h = refl
get_elem?-set_other (x ∷ xs) (suc i) (suc j) v h = get_elem?-set_other xs i j v (ground arith)

pub length-set : (xs : List ℕ) (i v : ℕ) → length (set xs i v) ≡ length xs
length-set [] i v = refl
length-set (x ∷ xs) zero v = refl
length-set (x ∷ xs) (suc i) v = ap suc (length-set xs i v)

pub get_elem?-some : (xs : List ℕ) (i : ℕ) → i < length xs → (a : ℕ) × (get_elem? xs i ≡ some a)
get_elem?-some [] i h = absurd (omega arith)
get_elem?-some (x ∷ xs) zero h = (x, refl)
get_elem?-some (x ∷ xs) (suc i) h = get_elem?-some xs i (omega arith)

pub contains-count : (v : ℕ) (xs : List ℕ) → contains v xs ≡ true → 1 ≤ count v xs
contains-count v [] h = cc
contains-count v (x ∷ xs) h = ground (arith, contains-count v xs)

pub count-contains : (v : ℕ) (xs : List ℕ) → 1 ≤ count v xs → contains v xs ≡ true
count-contains v [] h = absurd (omega arith)
count-contains v (x ∷ xs) h = ground (arith, count-contains v xs)
