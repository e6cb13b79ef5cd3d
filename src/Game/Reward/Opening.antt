-- ===== src/Game/Reward/Opening.antt =====
-- round.go: what `NewRound` opens.
use the_return_of_the_odysse.Base.{
  ℕ, ◌+◌, ◌-◌, ◌^◌, ◌≤◌, ◌<◌, ◌≡◌, refl, ap, sym, ◌∙◌, inl, Bool, false, ◌||◌, none, some, List, [],
  ◌∷◌, ◌++◌, arith, ltb, ◌==◌, length, length-take, All,
}
use mathlib.Core.List.{append_assoc, append-nil}
use the_return_of_the_odysse.Base.Maps.{lookup, insert}
use the_return_of_the_odysse.Base.Counting.{count, count-take_le}
use the_return_of_the_odysse.Base.Sorting.{sort, Sorted, sort-Sorted, count-sort}
use the_return_of_the_odysse.Base.Results.{ok, passes}
use the_return_of_the_odysse.Game.Random.{shuffle}
use the_return_of_the_odysse.Game.Random.Shuffle.{count-shuffle, length-shuffle}
use the_return_of_the_odysse.Game.Reward.{
  Offer, Offers, Round, max_options, bad_players, player_state, make_offer, fill_offers, new_round,
  keys,
}
use the_return_of_the_odysse.Game.Reward.Offers.{IsGood, AllGood, Inv}

-- Players that rise strictly from above `lo`.
abbrev pub Rising : ℕ → List ℕ → Type 0
Rising lo [] = Unit
Rising lo (p ∷ ps) = (lo < p) × Rising p ps

bad_players-after :
    (lo : ℕ) (ps : List ℕ) → Sorted lo ps → bad_players (some lo) ps ≡ false → Rising lo ps
bad_players-after lo [] s h = tt
bad_players-after lo (p ∷ ps) s h = ground (arith, bad_players-after p ps s.1)

bad_players-Rising : (ps : List ℕ) → Sorted 0 ps → bad_players none ps ≡ false → Rising 0 ps
bad_players-Rising [] s h = tt
bad_players-Rising (p ∷ ps) s h = ground (arith, bad_players-after p ps s.1)

-- The map that the loop fills, entry by entry.
abbrev entries : (ℕ → Offer) → List ℕ → Offers
entries offer [] = []
entries offer (p ∷ ps) = (p, offer p) ∷ entries offer ps

insert-new : (k : ℕ) (o : Offer) (m : Offers) → lookup k m ≡ none → insert k o m ≡ m ++ (k, o) ∷ []
insert-new k o [] h = refl
insert-new k o (entry ∷ rest) h = ground (arith, insert-new k o rest)

-- All keys are below `p`.
abbrev Below : ℕ → Offers → Type 0
Below p [] = Unit
Below p (entry ∷ rest) = (entry.0 < p) × Below p rest

lookup-Below : (p : ℕ) (m : Offers) → Below p m → lookup p m ≡ none
lookup-Below p [] b = refl
lookup-Below p (entry ∷ rest) b = ground (arith, lookup-Below p rest b.1)

Below-snoc : (p q : ℕ) (o : Offer) (m : Offers) → p < q → Below p m → Below q (m ++ (p, o) ∷ [])
Below-snoc p q o [] h b = (h, tt)
Below-snoc p q o (entry ∷ rest) h b = (omega arith, Below-snoc p q o rest h b.1)

fill_offers-entries :
    (offer : ℕ → Offer) (lo : ℕ) (ps : List ℕ) (m : Offers)
    → Rising lo ps
    → ((p : ℕ) → lo < p → Below p m)
    → fill_offers offer ps m ≡ m ++ entries offer ps
unfolding fill_offers
fill_offers-entries offer lo [] m s b = sym (append-nil m)
fill_offers-entries offer lo (p ∷ ps) m s b =
    rw (insert-new p (offer p) m (lookup-Below p m (b p s.0))) (
      fill_offers-entries offer p ps (m ++ (p, offer p) ∷ []) s.1
        (λ q h. Below-snoc p q (offer p) m h (b p s.0))
      ∙ append_assoc m ((p, offer p) ∷ []) (entries offer ps))

entries-AllGood :
    (offer : ℕ → Offer) (lo d : ℕ) (ps : List ℕ)
    → Rising lo ps
    → ((p : ℕ) → IsGood p d (offer p))
    → AllGood lo d (entries offer ps)
entries-AllGood offer lo d [] s good = tt
entries-AllGood offer lo d (p ∷ ps) s good = (s.0, good p, entries-AllGood offer p d ps s.1 good)

count_positive : (xs : List ℕ) → count 0 xs ≡ 0 → All (λ id. 0 < id) xs
count_positive [] h = tt
count_positive (x ∷ xs) h = (ground arith, count_positive xs (omega arith))

positive_count : (xs : List ℕ) → All (λ id. 0 < id) xs → count 0 xs ≡ 0
positive_count [] h = refl
positive_count (x ∷ xs) h = ground (arith, positive_count xs h.1)

-- The options of an offer: `n` of the catalogue's IDs, none more often than there.
abbrev pub Drawn : ℕ → List ℕ → Offer → Type 0
Drawn n ids o = (length o.equipment_ids ≡ n) × ((v : ℕ) → count v o.equipment_ids ≤ count v ids)

make_offer-Drawn :
    (stage_index seed d n player : ℕ) (ids : List ℕ)
    → n ≤ length ids
    → Drawn n ids (make_offer stage_index seed d ids n player)
unfolding make_offer
make_offer-Drawn stage_index seed d n player ids le =
    let mixed = shuffle (player_state seed player stage_index) ids in
    (
      omega (arith, length-take n mixed, length-shuffle (player_state seed player stage_index) ids),
      λ v. omega (
        arith,
        count-take_le v n mixed,
        count-shuffle v (player_state seed player stage_index) ids,
      ),
    )

make_offer-IsGood :
    (stage_index seed d n player : ℕ) (ids : List ℕ)
    → 0 < n
    → n ≤ length ids
    → All (λ id. 0 < id) ids
    → IsGood player d (make_offer stage_index seed d ids n player)
make_offer-IsGood stage_index seed d n player ids pos le real =
    let (size, few) = make_offer-Drawn stage_index seed d n player ids le in
    unfold make_offer in
    record {
      owner = refl;
      due = refl;
      some_option = omega (arith, size);
      real = count_positive _ (omega (arith, few 0, positive_count ids real));
      selected = inl refl;
    }

keys-entries : (offer : ℕ → Offer) (ps : List ℕ) → keys (entries offer ps) ≡ ps
keys-entries offer [] = refl
keys-entries offer (p ∷ ps) = ap (◌∷◌ p) (keys-entries offer ps)

entries-All :
    (P : Offer → Type 0) (offer : ℕ → Offer) (ps : List ℕ)
    → ((p : ℕ) → P (offer p))
    → All (λ e. P e.1) (entries offer ps)
entries-All P offer [] h = tt
entries-All P offer (p ∷ ps) h = (h p, entries-All P offer ps h)

-- What the first guard of `NewRound` lets through.
abbrev pub IsOpenable : ℕ → ℕ → ℕ → List ℕ → ℕ → Type 0
IsOpenable stage_index opened duration players option_count =
    (0 < stage_index)
    × (0 < duration)
    × (opened + duration < 2 ^ 64)
    × (0 < length players)
    × (0 < option_count)
    × (option_count ≤ max_options)

abbrev guard_test : ℕ → ℕ → ℕ → List ℕ → ℕ → Bool
guard_test stage_index opened duration players option_count =
    stage_index == 0
    || duration == 0
    || ltb (2 ^ 64 - 1 - duration) opened
    || length players == 0
    || ltb option_count 1
    || ltb max_options option_count

guard_test-false :
    (stage_index opened duration : ℕ) (players : List ℕ) (option_count : ℕ)
    → guard_test stage_index opened duration players option_count ≡ false
    → duration < 2 ^ 64
    → IsOpenable stage_index opened duration players option_count
guard_test-false stage_index opened duration players option_count h w = ground arith

-- The round that `NewRound` builds.
abbrev pub opened_round : ℕ → ℕ → ℕ → ℕ → List ℕ → List ℕ → ℕ → Round
opened_round address stage_index seed d players ids n = record {
  address = address;
  stage_index = stage_index;
  seed = seed;
  deadline = d;
  offers = fill_offers (make_offer stage_index seed d ids n) (sort players) [];
}

new_round-ok :
    (address stage_index seed opened duration : ℕ) (players ids : List ℕ) (n : ℕ) (r : Round)
    → new_round address stage_index seed opened duration players ids n ≡ ok r
    → (guard_test stage_index opened duration players n ≡ false)
      × (n ≤ length ids)
      × (bad_players none (sort players) ≡ false)
      × (r ≡ opened_round address stage_index seed (opened + duration) players ids n)
unfolding new_round
new_round-ok address stage_index seed opened duration players ids n r h =
    let (guard_, h1) = passes (guard_test stage_index opened duration players n) _ _ h in
    let (size, h2) = passes (ltb (length ids) n) _ _ h1 in
    let (players_, h3) = passes (bad_players none (sort players)) _ _ h2 in
    (guard_, ground arith, players_, ground arith)

-- Players that stand once each, none of them 0.
abbrev pub AreDistinct : List ℕ → Type 0
AreDistinct players = (count 0 players ≡ 0) × ((v : ℕ) → count v players ≤ 1)

good_after :
    (before : ℕ) (ps : List ℕ)
    → count before ps ≡ 0
    → AreDistinct ps
    → bad_players (some before) ps ≡ false
good_after before [] h d = refl
good_after before (p ∷ ps) h d =
    let once = d.1 p in
    let rest : AreDistinct ps = (omega (arith, d.0), λ v. omega (arith, d.1 v)) in
    let zero_free = d.0 in ground (arith, good_after p ps (ground arith) rest)

good_players : (ps : List ℕ) → AreDistinct ps → bad_players none ps ≡ false
good_players [] d = refl
good_players (p ∷ ps) d =
    let once = d.1 p in
    let rest : AreDistinct ps = (omega (arith, d.0), λ v. omega (arith, d.1 v)) in
    let zero_free = d.0 in ground (arith, good_after p ps (ground arith) rest)

guard_test-passes :
    (stage_index opened duration : ℕ) (players : List ℕ) (n : ℕ)
    → IsOpenable stage_index opened duration players n
    → guard_test stage_index opened duration players n ≡ false
guard_test-passes stage_index opened duration players n h = ground arith

-- `NewRound` succeeds whenever the stage, the duration and the option count are within their
-- limits, the deadline fits 64 bits, there are players, distinct and not 0, and the catalogue has
-- as many items as there are options to offer.
pub new_round-succeeds :
    (address stage_index seed opened duration : ℕ) (players ids : List ℕ) (n : ℕ)
    → IsOpenable stage_index opened duration players n
    → n ≤ length ids
    → AreDistinct players
    → new_round address stage_index seed opened duration players ids n
      ≡ ok (opened_round address stage_index seed (opened + duration) players ids n)
unfolding new_round
new_round-succeeds address stage_index seed opened duration players ids n open_ enough distinct =
    let sorted : AreDistinct (sort players) =
      (count-sort 0 players ∙ distinct.0, λ v. omega (arith, count-sort v players, distinct.1 v)) in
    let size : ltb (length ids) n ≡ false = ground arith in
    rw (
      guard_test-passes stage_index opened duration players n open_,
      size,
      good_players (sort players) sorted,
    )

-- A round that opens ends `duration` ticks after its opening, with no wrap-around. It holds one
-- offer for each player, by rising player ID, with exactly the number of options asked for, at most
-- three; the options are drawn from the catalogue's IDs, none more often than it stands there, so
-- that distinct IDs give distinct options. The invariant of rounds holds.
pub new_round-opens :
    (address stage_index seed opened duration : ℕ) (players ids : List ℕ) (n : ℕ) (r : Round)
    → duration < 2 ^ 64
    → All (λ id. 0 < id) ids
    → new_round address stage_index seed opened duration players ids n ≡ ok r
    → Inv r
      × (r.deadline ≡ opened + duration)
      × (n ≤ max_options)
      × (keys r.offers ≡ sort players)
      × Rising 0 (keys r.offers)
      × All (λ entry. Drawn n ids entry.1) r.offers
new_round-opens address stage_index seed opened duration players ids n r w real h =
    let (passed, enough, fine, built) =
      new_round-ok address stage_index seed opened duration players ids n r h in
    let open_ = guard_test-false stage_index opened duration players n passed w in
    let rising = bad_players-Rising (sort players) (sort-Sorted players) fine in
    let offer = make_offer stage_index seed (opened + duration) ids n in
    let filled : r.offers ≡ entries offer (sort players) =
      ap (λ (q : Round). q.offers) built
      ∙ fill_offers-entries offer 0 (sort players) [] rising (λ p low. tt) in
    let ends : r.deadline ≡ opened + duration = ap (λ (q : Round). q.deadline) built in
    let names : keys r.offers ≡ sort players = ap keys filled ∙ keys-entries offer (sort players) in
    (
      record {
        offers_good =
            rw (filled, ends)
              (entries-AllGood offer 0 (opened + duration) (sort players) rising (λ p.
                make_offer-IsGood stage_index seed (opened + duration) n p ids open_.4 enough
                  real));
        deadline_word = omega (arith, ends, open_.2);
      },
      ends,
      open_.5,
      names,
      rw names rising,
      rw filled (
          entries-All (Drawn n ids) offer (sort players)
            (λ p. make_offer-Drawn stage_index seed (opened + duration) n p ids enough)),
    )
