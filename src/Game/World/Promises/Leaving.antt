-- ===== src/Game/World/Promises/Leaving.antt =====
-- What a player who leaves does to the open rewards.
use the_return_of_the_odysse.Base.{
  ℕ, ◌≡◌, refl, sym, ap, subst, ◌∙◌, inl, inr, false, none, some, List, arith, ◌==◌, Bool-cases,
  Option-cases,
}
use the_return_of_the_odysse.Base.Floats.{Float64}
use the_return_of_the_odysse.Base.Maps.{lookup, erase, lookup-erase}
use the_return_of_the_odysse.Game.Equipment.{Catalog}
use the_return_of_the_odysse.Game.Reward.{Offer, Offers, Round, remove_player}
use the_return_of_the_odysse.Game.Reward.Offers.{erase-AllGood}
use the_return_of_the_odysse.Game.World.{Member, World, world_remove_player}
use the_return_of_the_odysse.Game.World.Promises.{Covered, IsReady}

not_erased :
    (id : ℕ) (offers : Offers) (p : ℕ) (o : Offer)
    → lookup p (erase id offers) ≡ some o
    → (lookup p offers ≡ some o) × ((id == p) ≡ false)
not_erased id offers p o h = let left = lookup-erase id p offers in ground arith

remove_player-none :
    (r : Round) (id : ℕ) → lookup id r.offers ≡ none → (remove_player (some r) id).0 ≡ some r
unfolding remove_player
remove_player-none r id n = rw (n, remove_player) refl

remove_player-some :
    (r : Round) (id : ℕ) (o : Offer)
    → lookup id r.offers ≡ some o
    → (remove_player (some r) id).0 ≡ some (record r { offers = erase id r.offers })
unfolding remove_player
remove_player-some r id o n = rw (n, remove_player) refl

-- Nobody but the leaver loses an offer when the leaver has none.
others :
    (id : ℕ) (offers : Offers) (p : ℕ) (o : Offer)
    → lookup id offers ≡ none
    → lookup p offers ≡ some o
    → (lookup p offers ≡ some o) × ((id == p) ≡ false)
others id offers p o n h = elim (Bool-cases (id == p)) [
  | inl t ↦
      let at_p : id ≡ p = ground arith in
      let both : none ≡ some o = sym n ∙ ap (λ i. lookup i offers) at_p ∙ h in cc
  | inr t ↦ (h, t)
]

module _ {F : Type 0} ⦃f : Float64 F⦄ where
  -- Who stays can take what was offered, when the offers left are of those who stay.
  erase-Covered :
      (c : Catalog F) (id : ℕ) (offers offers' : Offers) (players : List (ℕ × Member F))
      → Covered c offers players
      → ((p : ℕ) (o : Offer)
          → lookup p offers' ≡ some o
          → (lookup p offers ≡ some o) × ((id == p) ≡ false))
      → Covered c offers' (erase id players)
  erase-Covered c id offers offers' players covered stay p o found undecided =
      let (before, apart) = stay p o found in
      let (m, there, accepts) = covered p o before undecided in
      let left = lookup-erase id p players in
      let here : lookup p (erase id players) ≡ some m = ground arith in (m, here, accepts)

  removed :
      (id : ℕ) (w : World F)
      → ((world_remove_player id w).reward_round ≡ (remove_player w.reward_round id).0)
        × ((world_remove_player id w).players ≡ erase id w.players)
        × ((world_remove_player id w).reward_catalog ≡ w.reward_catalog)
  unfolding world_remove_player
  removed id w = ground arith

  pub world_remove_player-IsReady :
      (id : ℕ) (w : World F) (r : Round)
      → IsReady w r
      → (r' : Round) × IsReady (world_remove_player id w) r'
  world_remove_player-IsReady id w r ready =
      let (round, players, catalog) = removed id w in
      let after = world_remove_player id w in
      elim (Option-cases (lookup id r.offers)) [
        | inl n ↦
            let same_ : (remove_player w.reward_round id).0 ≡ some r =
              ap (λ x. (remove_player x id).0) ready.round ∙ remove_player-none r id n in
            (
              r,
              record {
                round = round ∙ same_;
                inv = ready.inv;
                covered =
                    subst (λ c. Covered c r.offers after.players) (sym catalog)
                      (subst (Covered w.reward_catalog r.offers) (sym players) (
                        erase-Covered w.reward_catalog id r.offers r.offers w.players ready.covered
                          (λ p o h. others id r.offers p o n h)));
              },
            )
        | inr (o, n) ↦
            let r' = record r { offers = erase id r.offers } in
            let same_ : (remove_player w.reward_round id).0 ≡ some r' =
              ap (λ x. (remove_player x id).0) ready.round ∙ remove_player-some r id o n in
            (
              r',
              record {
                round = round ∙ same_;
                inv = record {
                  offers_good = erase-AllGood 0 r.deadline id r.offers (ready.inv).offers_good;
                  deadline_word = (ready.inv).deadline_word;
                };
                covered =
                    subst (λ c. Covered c r'.offers after.players) (sym catalog)
                      (subst (Covered w.reward_catalog r'.offers) (sym players) (
                        erase-Covered w.reward_catalog id r.offers r'.offers w.players ready.covered
                          (not_erased id r.offers)));
              },
            )
      ]
