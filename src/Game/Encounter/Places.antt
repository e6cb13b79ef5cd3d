-- ===== src/Game/Encounter/Places.antt =====
-- encounter.go: where the monsters of the first stage stand.
use mathlib.Core.List.{Perm, perm_middle}
use mathlib.Core.List.Perm
use the_return_of_the_odysse.Base.{
  ℕ, zero, suc, ◌%◌, ◌<◌, ◌≤◌, ◌≡◌, refl, sym, ap, subst, ◌⊎◌, inl, inr, true, not, ◌||◌, some,
  List, [], ◌∷◌, ◌++◌, map, arith, leb, ltb, ◌==◌, if◌then◌else◌, get_or, Bool-cases,
}
use the_return_of_the_odysse.Base.Floats.{Float64}
use the_return_of_the_odysse.Base.Sorting.{place, sort}
use the_return_of_the_odysse.Game.Random.{next}
use the_return_of_the_odysse.Game.Entity.{Vec2, origin}
use the_return_of_the_odysse.Game.Stage.{Spawn, Plan}
use the_return_of_the_odysse.Game.Config.{Config, valid_config, valid_stage}
use the_return_of_the_odysse.Game.Encounter.{
  draw_order, visits, candidates, is_far, sort_out, ordered_places, first_spawn, first_plan,
  first_stage_monster_count, new_first_stage_plan,
}

place-Perm : (x : ℕ) (xs : List ℕ) → Perm (place x xs) (x ∷ xs)
place-Perm x [] = Perm.refl (x ∷ [])
place-Perm x (y ∷ ys) = elim (Bool-cases (leb x y)) [
  | inl e ↦ rw e (Perm.refl (x ∷ y ∷ ys))
  | inr e ↦ rw e (Perm.trans (Perm.cons y (place-Perm x ys)) (Perm.swap x y ys))
]

sort-Perm : (xs : List ℕ) → Perm (sort xs) xs
unfolding sort
sort-Perm [] = Perm.refl []
sort-Perm (x ∷ xs) = Perm.trans (place-Perm x (sort xs)) (Perm.cons x (sort-Perm xs))

abbrev indices : List ℕ
indices = 0 ∷ 1 ∷ 2 ∷ 3 ∷ 4 ∷ 5 ∷ 6 ∷ 7 ∷ []

-- Steps of 3 and of 5 come by each of the eight places, from wherever they start.
visits_3 : (start : ℕ) → start < 8 → sort (visits 8 0 start 3) ≡ indices
unfolding visits sort
visits_3 zero h = refl
visits_3 (suc zero) h = refl
visits_3 (suc (suc zero)) h = refl
visits_3 (suc (suc (suc zero))) h = refl
visits_3 (suc (suc (suc (suc zero)))) h = refl
visits_3 (suc (suc (suc (suc (suc zero))))) h = refl
visits_3 (suc (suc (suc (suc (suc (suc zero)))))) h = refl
visits_3 (suc (suc (suc (suc (suc (suc (suc zero))))))) h = refl
visits_3 (suc (suc (suc (suc (suc (suc (suc (suc n)))))))) h = absurd (omega arith)

visits_5 : (start : ℕ) → start < 8 → sort (visits 8 0 start 5) ≡ indices
unfolding visits sort
visits_5 zero h = refl
visits_5 (suc zero) h = refl
visits_5 (suc (suc zero)) h = refl
visits_5 (suc (suc (suc zero))) h = refl
visits_5 (suc (suc (suc (suc zero)))) h = refl
visits_5 (suc (suc (suc (suc (suc zero))))) h = refl
visits_5 (suc (suc (suc (suc (suc (suc zero)))))) h = refl
visits_5 (suc (suc (suc (suc (suc (suc (suc zero))))))) h = refl
visits_5 (suc (suc (suc (suc (suc (suc (suc (suc n)))))))) h = absurd (omega arith)

abbrev stride : ℕ → ℕ
stride k = if k % 2 == 0 then 3 else 5

draws : (n k : ℕ) → (n % 8 < 8) × ((stride k ≡ 3) ⊎ (stride k ≡ 5))
draws n k = elim (Bool-cases (k % 2 == 0)) [
  | inl e ↦ (omega arith, inl (rw e refl))
  | inr e ↦ (omega arith, inr (rw e refl))
]

draw_order-bounds :
    (seed : ℕ) → ((draw_order seed).0 < 8) × (((draw_order seed).1 ≡ 3) ⊎ ((draw_order seed).1 ≡ 5))
unfolding draw_order
draw_order-bounds seed = draws (next seed).0 (next (next seed).1).0

visits-Perm :
    (start step : ℕ) → start < 8 → (step ≡ 3) ⊎ (step ≡ 5) → Perm (visits 8 0 start step) indices
visits-Perm start step h (inl e) = rw e (
    subst (Perm (visits 8 0 start 3)) (visits_3 start h)
      (Perm.symm (sort-Perm (visits 8 0 start 3))))
visits-Perm start step h (inr e) = rw e (
    subst (Perm (visits 8 0 start 5)) (visits_5 start h)
      (Perm.symm (sort-Perm (visits 8 0 start 5))))

module _ {F : Type 0} ⦃f : Float64 F⦄ where
  sort_out-Perm :
      (c : Config F) (is : List ℕ)
      → Perm ((sort_out c is).0 ++ (sort_out c is).1) (map (λ i. get_or (candidates c) i origin) is)
  unfolding sort_out
  sort_out-Perm c [] = Perm.refl []
  sort_out-Perm c (i ∷ is) =
      let p = get_or (candidates c) i origin in
      let (ordered, deferred) = sort_out c is in
      let rest = Perm.cons p (sort_out-Perm c is) in
      elim (Bool-cases (is_far c p)) [
        | inl e ↦ rw e rest
        | inr e ↦ rw e (Perm.trans (perm_middle ordered deferred) rest)
      ]

  ordered_places-Perm : (c : Config F) (seed : ℕ) → Perm (ordered_places c seed) (candidates c)
  unfolding ordered_places
  ordered_places-Perm c seed =
      let (start, step) = draw_order seed in
      let (low, odd) = draw_order-bounds seed in
      Perm.trans (sort_out-Perm c (visits 8 0 start step))
        (Perm.map (λ i. get_or (candidates c) i origin) (visits-Perm start step low odd))

  positions : (ps : List (Vec2 F)) → map (λ (m : Spawn F). m.position) (map first_spawn ps) ≡ ps
  positions [] = refl
  positions (p ∷ ps) = ap (◌∷◌ p) (positions ps)

  -- A plan that `NewFirstStagePlan` returns is that of stage 1 with its seed, fits the world, which
  -- has room for its eight monsters, and puts one monster on each of the eight candidate places,
  -- none left out and none taken twice, whatever the seed.
  pub first_stage_places :
      (c : Config F) (seed : ℕ) (p : Plan F)
      → new_first_stage_plan c seed ≡ some p
      → (p.index ≡ 1)
        × (p.seed ≡ seed)
        × (valid_stage p c ≡ true)
        × (8 ≤ (c.combat).max_monsters)
        × Perm (map (λ (m : Spawn F). m.position) p.monsters) (candidates c)
  unfolding new_first_stage_plan
  first_stage_places c seed p h =
      let bad =
        not (valid_config c)
        || ltb (c.combat).max_monsters first_stage_monster_count
        || not (valid_stage (first_plan c seed) c) in
      elim (Bool-cases bad) [
        | inl e ↦ ground arith
        | inr e ↦
            let k : first_plan c seed ≡ p = ground arith in
            let valid : valid_stage (first_plan c seed) c ≡ true = ground arith in
            let room : 8 ≤ (c.combat).max_monsters = ground arith in
            let spots =
              subst (λ ps. Perm ps (candidates c)) (sym (positions (ordered_places c seed)))
                (ordered_places-Perm c seed) in
            (
              sym (ap (λ (x : Plan F). x.index) k),
              sym (ap (λ (x : Plan F). x.seed) k),
              subst (λ x. valid_stage x c ≡ true) k valid,
              room,
              subst
                  (λ (x : Plan F).
                    Perm (map (λ (m : Spawn F). m.position) x.monsters) (candidates c))
                  k spots,
            )
      ]
