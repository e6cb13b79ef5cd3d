-- ===== src/Game/Reward/Tests.antt =====
-- round.go on concrete rounds: two players, a catalogue of four items, two options each.
use the_return_of_the_odysse.Base.{
  ℕ, ◌≡◌, ◌<◌, ◌≤◌, ◌⊎◌, refl, some, List, [], ◌∷◌, arith, All, length,
}
use the_return_of_the_odysse.Base.Counting.{count}
use the_return_of_the_odysse.Base.Sorting.{sort}
use the_return_of_the_odysse.Base.Results.{ok}
use the_return_of_the_odysse.Game.Reward.{
  fill_offers, make_offer, player_state, Offer, Round, max_options, new_round, keys, offer_of,
  validate_choice, commit, due_defaults,
}
use the_return_of_the_odysse.Game.Random.{shuffle, shuffle_from, swap, next}
use the_return_of_the_odysse.Game.Reward.Offers.{Inv}
use the_return_of_the_odysse.Game.Reward.Opening.{
  AreDistinct, Drawn, Rising, opened_round, new_round-succeeds, new_round-opens,
}
use the_return_of_the_odysse.Game.Reward.Choice.{Chosen, choice, choice_commits}
use the_return_of_the_odysse.Game.Reward.Defaults.{Ends, defaults_complete}

abbrev items : List ℕ
items = 101 ∷ 102 ∷ 103 ∷ 104 ∷ []

abbrev players : List ℕ
players = 9 ∷ 4 ∷ []

abbrev fresh : Round
fresh = opened_round 1 3 77 600 players items 2

players-AreDistinct : AreDistinct players
players-AreDistinct = (refl, λ v. ground (arith, count))

new_round-succeeds_example : new_round 1 3 77 500 100 players items 2 ≡ ok fresh
new_round-succeeds_example =
    new_round-succeeds 1 3 77 500 100 players items 2
      (omega arith, omega arith, omega arith, omega arith, omega arith, omega arith) (omega arith)
      players-AreDistinct

items_real : All (λ id. 0 < id) items
items_real = (omega arith, (omega arith, (omega arith, (omega arith, tt))))

new_round-opens_example :
    Inv fresh
    × (fresh.deadline ≡ 600)
    × (2 ≤ max_options)
    × (keys fresh.offers ≡ sort players)
    × Rising 0 (keys fresh.offers)
    × All (λ entry. Drawn 2 items entry.1) fresh.offers
new_round-opens_example =
    new_round-opens 1 3 77 500 100 players items 2 fresh (omega arith) items_real
      new_round-succeeds_example

fresh-Inv : Inv fresh
fresh-Inv = new_round-opens_example.0

some_offers : 0 < length fresh.offers
unfolding fill_offers sort
some_offers = omega arith

defaults_complete_example :
    ((700 ≤ fresh.deadline) × (due_defaults (some fresh) 700 ≡ some []))
    ⊎ ((fresh.deadline < 700) × Ends fresh 700)
defaults_complete_example = defaults_complete fresh 700 fresh-Inv some_offers

chosen : validate_choice (some fresh) 4 103 550 ≡ ok (choice fresh 4 103)
unfolding validate_choice fill_offers make_offer shuffle shuffle_from swap next player_state sort
chosen = refl

choice_commits_example :
    (o : Offer) × (r' : Round) × (offer_of (some fresh) 4 ≡ some o)
    × (commit (some fresh) (choice fresh 4 103) ≡ ok r')
    × Chosen fresh 4 103 9 104 560 o r'
choice_commits_example =
    choice_commits fresh 4 103 550 9 104 560 (choice fresh 4 103) fresh-Inv chosen
