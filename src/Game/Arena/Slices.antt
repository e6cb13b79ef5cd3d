-- ===== src/Game/Arena/Slices.antt =====
-- The slices of `routeAroundCover` in arena.go: setting and reading their elements.
use the_return_of_the_odysse.Base.{
  ℕ, zero, suc, ◌+◌, ◌≤◌, ◌<◌, ◌≡◌, refl, ap, sym, ◌∙◌, ◌⊎◌, inl, inr, false, List, [], ◌∷◌, map,
  arith, ltb, ◌==◌, length, get_or, Bool-cases, All,
}
use the_return_of_the_odysse.Game.Arena.Route.{set_at, indices}

pub length-set_at : {A : Type 0} (xs : List A) (i : ℕ) (x : A) → length (set_at xs i x) ≡ length xs
length-set_at [] i x = refl
length-set_at (y ∷ ys) zero x = refl
length-set_at (y ∷ ys) (suc i) x = ap suc (length-set_at ys i x)

pub get_or-set_at_other :
    {A : Type 0} (xs : List A) (i v : ℕ) (x d : A)
    → (v == i) ≡ false
    → get_or (set_at xs i x) v d ≡ get_or xs v d
get_or-set_at_other [] i v x d h = refl
get_or-set_at_other (y ∷ ys) zero zero x d h = ground arith
get_or-set_at_other (y ∷ ys) zero (suc v) x d h = refl
get_or-set_at_other (y ∷ ys) (suc i) zero x d h = refl
get_or-set_at_other (y ∷ ys) (suc i) (suc v) x d h = get_or-set_at_other ys i v x d (ground arith)

pub get_or-set_at_self :
    {A : Type 0} (xs : List A) (i : ℕ) (x d : A) → i < length xs → get_or (set_at xs i x) i d ≡ x
get_or-set_at_self [] i x d h = ground arith
get_or-set_at_self (y ∷ ys) zero x d h = refl
get_or-set_at_self (y ∷ ys) (suc i) x d h = get_or-set_at_self ys i x d (omega arith)

-- Setting an index out of range changes nothing.
pub get_or-set_at_range :
    {A : Type 0} (xs : List A) (i v : ℕ) (x d : A)
    → length xs ≤ i
    → get_or (set_at xs i x) v d ≡ get_or xs v d
get_or-set_at_range [] i v x d h = refl
get_or-set_at_range (y ∷ ys) zero v x d h = ground arith
get_or-set_at_range (y ∷ ys) (suc i) zero x d h = refl
get_or-set_at_range (y ∷ ys) (suc i) (suc v) x d h = get_or-set_at_range ys i v x d (omega arith)

-- The values that a set leaves: the new one at its index, the old ones elsewhere.
pub get_or-set_at :
    {A : Type 0} (xs : List A) (i v : ℕ) (x d y : A)
    → get_or (set_at xs i x) v d ≡ y
    → ((v ≡ i) × (x ≡ y)) ⊎ (get_or xs v d ≡ y)
get_or-set_at xs i v x d y h = elim (Bool-cases (v == i)) [
  | inr e ↦ inr (sym (get_or-set_at_other xs i v x d e) ∙ h)
  | inl e ↦ elim (Bool-cases (ltb i (length xs))) [
    | inl r ↦
        let k : v ≡ i = ground arith in
        let g = get_or-set_at_self xs i x d (ground arith) in
        inl (k, sym g ∙ ap (λ j. get_or (set_at xs i x) j d) (sym k) ∙ h)
    | inr r ↦ inr (sym (get_or-set_at_range xs i v x d (ground arith)) ∙ h)
  ]
]

pub indices-below :
    {A : Type 0} (i n : ℕ) (xs : List A) → i + length xs ≤ n → All (λ j. j < n) (indices i xs)
indices-below i n [] h = tt
indices-below i n (x ∷ xs) h = (omega arith, indices-below (suc i) n xs (omega arith))

pub get_or-map : {A B : Type 0} (xs : List A) (b : B) (v : ℕ) → get_or (map (λ x. b) xs) v b ≡ b
get_or-map [] b v = refl
get_or-map (x ∷ xs) b zero = refl
get_or-map (x ∷ xs) b (suc v) = get_or-map xs b v

pub indices-length : {A : Type 0} (i : ℕ) (xs : List A) → length (indices i xs) ≡ length xs
indices-length i [] = refl
indices-length i (x ∷ xs) = ap suc (indices-length (suc i) xs)
