-- ===== src/Game/Random/Shuffle.antt =====
-- round.go: whatever numbers are drawn, a shuffle only reorders.
use the_return_of_the_odysse.Base.{
  ℕ, zero, suc, ◌+◌, ◌-◌, ◌%◌, ◌≡◌, refl, ◌∙◌, some, List, arith, ◌==◌, get_elem?, length,
  Bool-cases, inl, inr, Option-cases,
}
use the_return_of_the_odysse.Base.Counting.{
  count, set, count-set, length-set, get_elem?-set_self, get_elem?-set_other,
}
use the_return_of_the_odysse.Game.Random.{next, swap, shuffle_from, shuffle}

swap_count :
    (v i j a b : ℕ) (xs : List ℕ)
    → get_elem? xs i ≡ some a
    → get_elem? xs j ≡ some b
    → count v (set (set xs i b) j a) ≡ count v xs
swap_count v i j a b xs p q = elim (Bool-cases (i == j)) [
  | inl same ↦
      let there : get_elem? (set xs i b) j ≡ some b =
        ground (arith, get_elem?-set_self xs i b a p) in
      ground (arith, count-set v i a b xs p, count-set v j b a (set xs i b) there)
  | inr other ↦ omega (
    arith,
    count-set v i a b xs p,
    count-set v j b a (set xs i b) (get_elem?-set_other xs i j b other ∙ q),
  )
]

count-swap : (v i j : ℕ) (xs : List ℕ) → count v (swap i j xs) ≡ count v xs
unfolding swap
count-swap v i j xs = elim (Option-cases (get_elem? xs i)) [
  | inl p ↦ rw (p, swap)
  | inr (a, p) ↦ elim (Option-cases (get_elem? xs j)) [
    | inl q ↦ rw (p, q, swap)
    | inr (b, q) ↦ rw (p, q, swap) (swap_count v i j a b xs p q)
  ]
]

length-swap : (i j : ℕ) (xs : List ℕ) → length (swap i j xs) ≡ length xs
unfolding swap
length-swap i j xs = elim (Option-cases (get_elem? xs i)) [
  | inl p ↦ rw (p, swap)
  | inr (a, p) ↦ elim (Option-cases (get_elem? xs j)) [
    | inl q ↦ rw (p, q, swap)
    | inr (b, q) ↦ rw (p, q, swap) (length-set (set xs i b) j a ∙ length-set xs i b)
  ]
]

count-shuffle_from : (v i state : ℕ) (xs : List ℕ) → count v (shuffle_from i state xs) ≡ count v xs
unfolding shuffle_from
count-shuffle_from v zero state xs = refl
count-shuffle_from v (suc i) state xs =
    let (drawn, state') = next state in
    count-shuffle_from v i state' (swap (suc i) (drawn % (suc i + 1)) xs)
    ∙ count-swap v (suc i) (drawn % (suc i + 1)) xs

length-shuffle_from : (i state : ℕ) (xs : List ℕ) → length (shuffle_from i state xs) ≡ length xs
unfolding shuffle_from
length-shuffle_from zero state xs = refl
length-shuffle_from (suc i) state xs =
    let (drawn, state') = next state in
    length-shuffle_from i state' (swap (suc i) (drawn % (suc i + 1)) xs)
    ∙ length-swap (suc i) (drawn % (suc i + 1)) xs

-- Whatever the generator draws, a shuffled list holds every number as often as the list did.
pub count-shuffle : (v state : ℕ) (xs : List ℕ) → count v (shuffle state xs) ≡ count v xs
unfolding shuffle
count-shuffle v state xs = count-shuffle_from v (length xs - 1) state xs

pub length-shuffle : (state : ℕ) (xs : List ℕ) → length (shuffle state xs) ≡ length xs
unfolding shuffle
length-shuffle state xs = length-shuffle_from (length xs - 1) state xs
