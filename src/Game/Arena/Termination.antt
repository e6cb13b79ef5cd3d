-- ===== src/Game/Arena/Termination.antt =====
-- arena.go: the walk back of `routeAroundCover` ends. Each node's predecessor was visited before the
-- node, so ranks by the round of the visit fall along the way.
use the_return_of_the_odysse.Base.{
  ℕ, zero, suc, ◌+◌, ◌≤◌, ◌<◌, ◌≡◌, refl, ap, sym, subst, ◌∙◌, inl, inr, true, false, not, ◌&&◌,
  ◌||◌, Option, none, some, List, [], ◌∷◌, arith, ◌==◌, if◌then◌else◌, length, get_or, Bool-cases,
  Option-cases, All, length-map,
}
use the_return_of_the_odysse.Base.Floats.{Float64}
use the_return_of_the_odysse.Game.Entity.{Vec2, origin}
use the_return_of_the_odysse.Game.Config.{Config}
use the_return_of_the_odysse.Game.Arena.{CoverBlock, first_cover_hit}
use the_return_of_the_odysse.Game.Arena.Route.{
  Search, set_at, indices, walk_back, nearest, relaxed, relax, explore, start_search, first_step,
  all_corners, route_around_cover,
}
use the_return_of_the_odysse.Game.Arena.Slices.{
  length-set_at, get_or-set_at_other, get_or-set_at_self, get_or-set_at, indices-below, get_or-map,
  indices-length,
}

-- A walk back from a node whose rank is below the fuel ends.
walk_back-some :
    (fuel : ℕ) (previous : List (Option ℕ)) (rank : ℕ → ℕ) (v : ℕ)
    → ((x u : ℕ) → get_or previous x none ≡ some u → rank u < rank x)
    → rank v < fuel
    → (at : ℕ) × (walk_back fuel previous v ≡ some at)
walk_back-some zero previous rank v down h = ground arith
walk_back-some (suc fuel) previous rank v down h = elim (Option-cases (get_or previous v none)) [
  | inl e ↦ (v, rw (e, walk_back) refl)
  | inr (zero, e) ↦ (v, rw (e, walk_back) refl)
  | inr (suc u, e) ↦
      let lower = down v (suc u) e in
      let (at, k) = walk_back-some fuel previous rank (suc u) down (omega arith) in
      (at, rw (e, walk_back) k)
]

module _ {F : Type 0} ⦃f : Float64 F⦄ where
  open f use {infinity, lt, add, hypot, sub}

  -- After `k` rounds over `n` nodes: the ranks are at most `k`, those of nodes not visited `k`, and a
  -- predecessor has a lower rank.
  record IsRanked (n k : ℕ) (rank : ℕ → ℕ) (s : Search F) : Type 0 where
    low : (v : ℕ) → rank v ≤ k
    unvisited : (v : ℕ) → get_or s.visited v false ≡ false → rank v ≡ k
    down : (v u : ℕ) → get_or s.previous v none ≡ some u → rank u < rank v
    size : length s.visited ≡ n

  relaxed-IsRanked :
      (n k : ℕ) (rank : ℕ → ℕ) (s : Search F) (points : List (Vec2 F)) (current next : ℕ)
      → IsRanked n k rank s
      → rank current < k
      → get_or s.visited next false ≡ false
      → IsRanked n k rank (relaxed points current next s)
  relaxed-IsRanked n k rank s points current next i below fresh =
      let from = get_or points current origin in
      let to = get_or points next origin in
      let candidate =
        add (get_or s.distance current infinity) (hypot (sub to.x from.x) (sub to.y from.y)) in
      let at_next = i.unvisited next fresh in
      let set : IsRanked n k rank (record s {
        distance = set_at s.distance next candidate;
        previous = set_at s.previous next (some current);
      }) =
        record {
          low = i.low;
          unvisited = i.unvisited;
          down = λ v u h. elim (get_or-set_at s.previous next v (some current) none (some u) h) [
            | inl (e, g) ↦
                let same : current ≡ u = ground arith in
                let there : rank v ≡ k = ap rank e ∙ at_next in
                let below' : rank u < k = subst (λ x. rank x < k) same below in omega arith
            | inr g ↦ i.down v u g
          ];
          size = i.size;
        } in
      elim (Bool-cases (lt candidate (get_or s.distance next infinity))) [
        | inl e ↦ rw e set
        | inr e ↦ rw e i
      ]

  relax-IsRanked :
      (n k : ℕ) (rank : ℕ → ℕ) (covers : List (CoverBlock F)) (r : F) (points : List (Vec2 F))
      (current : ℕ) (ids : List ℕ) (s : Search F)
      → IsRanked n k rank s
      → rank current < k
      → IsRanked n k rank (relax covers r points current ids s)
  relax-IsRanked n k rank covers r points current [] s i below = i
  relax-IsRanked n k rank covers r points current (next ∷ ids) s i below =
      let hit =
        first_cover_hit covers (get_or points current origin) (get_or points next origin) r in
      elim (Bool-cases (next == current || get_or s.visited next false || hit.1)) [
        | inl e ↦ rw (e, relax) (relax-IsRanked n k rank covers r points current ids s i below)
        | inr e ↦
            rw (e, relax)
              (relax-IsRanked n k rank covers r points current ids (relaxed points current next s)
                (relaxed-IsRanked n k rank s points current next i below (ground arith)) below)
      ]

  -- The ranks after the visit of `current` in round `k`.
  abbrev visit : ℕ → ℕ → (ℕ → ℕ) → Search F → ℕ → ℕ
  visit k current rank s v =
      if v == current then k else if get_or s.visited v false then rank v else suc k

  visit-IsRanked :
      (n k current : ℕ) (rank : ℕ → ℕ) (s : Search F)
      → IsRanked n k rank s
      → current < n
      → get_or s.visited current false ≡ false
      → IsRanked n
          (suc k)
          (visit k current rank s)
          (record s { visited = set_at s.visited current true })
  visit-IsRanked n k current rank s i inside fresh = record {
    low = λ v. ground (arith, i.low v);
    unvisited = λ v h. elim (Bool-cases (v == current)) [
      | inl e ↦
          let same : v ≡ current = ground arith in
          let g = get_or-set_at_self s.visited current true false (omega (arith, i.size)) in
          let h' = ap (λ j. get_or (set_at s.visited current true) j false) (sym same) ∙ h in
          ground arith
      | inr e ↦
          let h' = sym (get_or-set_at_other s.visited current v true false e) ∙ h in ground arith
    ];
    down = λ v u h. elim (Bool-cases (get_or s.visited u false)) [
      | inr e ↦
          let top = i.unvisited u e in
          let lower = i.down v u h in let most = i.low v in ground arith
      | inl e ↦ elim (Bool-cases (u == current)) [
        | inl c ↦
            let same : u ≡ current = ground arith in
            let e' = ap (λ j. get_or s.visited j false) (sym same) ∙ e in ground arith
        | inr c ↦ let lower = i.down v u h in let most = i.low v in ground arith
      ]
    ];
    size = length-set_at s.visited current true ∙ i.size;
  }

  -- The nearest node is one of the nodes looked at, and is not visited.
  nearest-fresh :
      (n : ℕ) (s : Search F) (ids : List ℕ) (best : Option ℕ × F) (at : ℕ)
      → All (λ j. j < n) ids
      → ((v : ℕ) → best.0 ≡ some v → (v < n) × (get_or s.visited v false ≡ false))
      → (nearest s ids best).0 ≡ some at
      → (at < n) × (get_or s.visited at false ≡ false)
  nearest-fresh n s [] best at small good h = good at h
  nearest-fresh n s (j ∷ ids) (current, best) at small good h =
      let d = get_or s.distance j infinity in
      elim (Bool-cases (not (get_or s.visited j false) && lt d best)) [
        | inl e ↦
            nearest-fresh n s ids (some j, d) at small.1
              (λ v g.
                let same : j ≡ v = ground arith in
                subst (λ x. (x < n) × (get_or s.visited x false ≡ false)) same
                  (small.0, ground arith))
              (ground arith)
        | inr e ↦ nearest-fresh n s ids (current, best) at small.1 good (ground arith)
      ]

  explore-IsRanked :
      (n k : ℕ) (rank : ℕ → ℕ) (covers : List (CoverBlock F)) (r : F) (points : List (Vec2 F))
      (rounds : List ℕ) (s : Search F)
      → length points ≡ n
      → IsRanked n k rank s
      → (k' : ℕ) × (k' ≤ k + length rounds)
        × ((rank' : ℕ → ℕ) × IsRanked n k' rank' (explore covers r points rounds s))
  unfolding explore
  explore-IsRanked n k rank covers r points [] s size i = (k, omega arith, (rank, i))
  explore-IsRanked n k rank covers r points (x ∷ xs) s size i =
      elim (Option-cases ((nearest s (indices 0 points) (none, infinity)).0)) [
        | inl e ↦ (k, omega arith, (rank, rw (e, explore) i))
        | inr (at, e) ↦ elim (Bool-cases (at == 1)) [
          | inl g ↦ (k, omega arith, (rank, rw (e, explore, g) i))
          | inr g ↦
              let fits : 0 + length points ≤ n = omega (arith, size) in
              let (inside, fresh) =
                nearest-fresh n s (indices 0 points) (none, infinity) at
                  (indices-below 0 n points fits) (λ v absurd. cc) e in
              let below : visit k at rank s at < suc k = ground arith in
              let next =
                relax-IsRanked n (suc k) (visit k at rank s) covers r points at (indices 0 points)
                  (record s { visited = set_at s.visited at true })
                  (visit-IsRanked n k at rank s i inside fresh) below in
              let (k', most, ranked) =
                explore-IsRanked n (suc k) (visit k at rank s) covers r points xs
                  (relax covers r points at (indices 0 points)
                    (record s { visited = set_at s.visited at true }))
                  size next in
              (k', omega arith, rw (e, explore, g) ranked)
        ]
      ]

  start_search-IsRanked :
      (points : List (Vec2 F)) → IsRanked (length points) 0 (λ v. 0) (start_search points)
  start_search-IsRanked points = record {
    low = λ v. omega arith;
    unvisited = λ v h. refl;
    down = λ v u h.
        let nothing : Option ℕ = none in
        let absent = get_or-map points nothing v in
        let clash : nothing ≡ some u = sym absent ∙ h in cc;
    size = length-map points (λ p. false);
  }

  first_step-some :
      (n k : ℕ) (rank : ℕ → ℕ) (points : List (Vec2 F)) (s : Search F) (goal : Vec2 F)
      → IsRanked n k rank s
      → k ≤ length points
      → (waypoint : Vec2 F) × (first_step points s goal ≡ some waypoint)
  first_step-some n k rank points s goal i few = elim (Option-cases (get_or s.previous 1 none)) [
    | inl e ↦ (goal, rw (e, first_step) refl)
    | inr (u, e) ↦
        let low = i.low 1 in
        let (at, w) = walk_back-some (suc (length points)) s.previous rank 1 i.down (omega arith) in
        elim (Option-cases (get_or s.previous at none)) [
          | inl g ↦ (goal, ground arith)
          | inr (zero, g) ↦ (get_or points at origin, ground arith)
          | inr (suc v, g) ↦ (goal, ground arith)
        ]
  ]

  -- A search for a route always ends, with the goal or a node of the way to it: the predecessors
  -- never form a circle.
  pub route_around_cover-ends :
      (c : Config F) (covers : List (CoverBlock F)) (from goal : Vec2 F) (r : F)
      → (waypoint : Vec2 F) × (route_around_cover c covers from goal r ≡ some waypoint)
  unfolding route_around_cover
  route_around_cover-ends c covers from goal r =
      let points = from ∷ goal ∷ all_corners c covers r covers in
      let search = explore covers r points (indices 0 points) (start_search points) in
      let (k, few, (rank, ranked)) =
        explore-IsRanked (length points) 0 (λ v. 0) covers r points (indices 0 points)
          (start_search points) refl (start_search-IsRanked points) in
      let (waypoint, e) =
        first_step-some (length points) k rank points search goal ranked
          (omega (arith, indices-length 0 points)) in
      elim (Bool-cases ((first_cover_hit covers from goal r).1)) [
        | inl h ↦ (waypoint, rw (h, route_around_cover) e)
        | inr h ↦ (goal, rw (h, route_around_cover) refl)
      ]
