-- ===== src/Game/World/Promises.antt =====
-- server/internal/game/rewards.go: what `StartReward` has checked, and that a default can therefore be
-- applied.
pub mod Rounds
pub mod Keeping
pub mod Leaving
pub mod Histories
mod Tests
use the_return_of_the_odysse.Base.{
  ℕ, ◌<◌, ◌≤◌, ◌≡◌, ◌≢◌, refl, sym, ap, subst, ◌∙◌, inl, inr, true, false, Option, some, List, [],
  ◌∷◌, Bool, arith, leb, ◌==◌, get_or, Bool-cases, All,
}
use the_return_of_the_odysse.Base.Floats.{Float64}
use the_return_of_the_odysse.Base.Maps.{lookup, insert, lookup-insert}
use the_return_of_the_odysse.Base.Counting.{contains}
use the_return_of_the_odysse.Base.Results.{ok}
use the_return_of_the_odysse.Game.Entity.{CombatStats}
use the_return_of_the_odysse.Game.Equipment.{Catalog}
use the_return_of_the_odysse.Game.Loadout.{Loadout}
use the_return_of_the_odysse.Game.Reward.{
  Offer, Offers, Round, Selection, commit, defaults, due_defaults, default_of, complete,
}
use the_return_of_the_odysse.Game.Reward.Offers.{
  Inv, AllGood, lookup-IsGood, values, offers_of-values,
}
use the_return_of_the_odysse.Game.Reward.Choice.{marked, marked-Inv}
use the_return_of_the_odysse.Game.Reward.Defaults.{
  default_at, first_id-good, open_step, defaults-open, defaults-taken,
}
use the_return_of_the_odysse.Game.Stage.{reward}
use the_return_of_the_odysse.Game.World.{Member, World, is_stage}
use the_return_of_the_odysse.Game.World.Ammo.{equipped, apply_to}
use the_return_of_the_odysse.Game.World.Rewards.{
  from_round, emit_reward_update, settle_selection, apply_reward_selection, apply_defaults,
  step_reward,
}

-- The entries stand in the map.
abbrev Standing : Offers → Offers → Type 0
Standing whole m = All (λ entry. lookup entry.0 whole ≡ some entry.1) m

insert-Standing :
    (k lo d : ℕ) (o : Offer) (m whole : Offers)
    → k ≤ lo
    → AllGood lo d m
    → Standing whole m
    → Standing (insert k o whole) m
insert-Standing k lo d o [] whole le g s = tt
insert-Standing k lo d o (entry ∷ rest) whole le g s =
    let there = lookup-insert k entry.0 o whole in
    let above = g.0 in
    let standing = s.0 in
    (ground arith, insert-Standing k entry.0 d o rest whole (omega arith) g.2 s.1)

-- A map whose look-ups above `lo` are those of the whole stands in it.
part-Standing :
    (lo d : ℕ) (m whole : Offers)
    → AllGood lo d m
    → ((k : ℕ) (o : Offer) → lookup k m ≡ some o → lookup k whole ≡ some o)
    → Standing whole m
part-Standing lo d [] whole g h = tt
part-Standing lo d ((k, o) ∷ rest) whole g h = (
  h k o (ground arith),
  part-Standing k d rest whole g.2
      λ j p e. let above = (lookup-IsGood k d j p rest g.2 e).0 in h j p (ground arith),
)

-- A default that is due is one of the open round's.
due_defaults-open :
    (w : Option Round) (tick : ℕ) (r : Round)
    → w ≡ some r
    → Inv r
    → leb tick r.deadline ≡ false
    → due_defaults w tick ≡ defaults r.address (values r.offers)
unfolding due_defaults
due_defaults-open w tick r e inv late = rw (e, due_defaults, late, offers_of-values r inv) refl

due_defaults-early :
    (w : Option Round) (tick : ℕ) (r : Round)
    → w ≡ some r
    → leb tick r.deadline ≡ true
    → due_defaults w tick ≡ some []
unfolding due_defaults
due_defaults-early w tick r e early = rw (e, due_defaults, early) refl

module _ {F : Type 0} ⦃f : Float64 F⦄ where
  -- `Apply` accepts the item for the player.
  abbrev pub Accepts : Catalog F → ℕ → Member F → Type 0
  Accepts c id m = (x : Loadout × CombatStats F × F) × (apply_to c id m ≡ ok x)

  -- Every open offer is that of a player in the world, who can take each of its options.
  abbrev pub Covered : Catalog F → Offers → List (ℕ × Member F) → Type 0
  Covered c offers players =
      (p : ℕ) (o : Offer)
      → lookup p offers ≡ some o
      → o.selected_id ≡ 0
      → (m : Member F) × (lookup p players ≡ some m)
        × ((id : ℕ) → contains id o.equipment_ids ≡ true → Accepts c id m)

  -- The world has the round `r`, and every open offer of it can be taken.
  pub record IsReady (w : World F) (r : Round) : Type 0 where
    pub round : w.reward_round ≡ some r
    pub inv : Inv r
    pub covered : Covered w.reward_catalog r.offers w.players

  -- After the selection the world is ready for the rest of the round, which is then `r'`.
  abbrev pub Granted : World F → Selection → ℕ → Round → Type 0
  Granted w s at r' = (w' : World F) × (apply_reward_selection s at w ≡ ok w') × IsReady w' r'

  marked-Covered :
      (c : Catalog F) (r : Round) (k id : ℕ) (by_default : Bool) (o : Offer) (m : Member F)
      (players : List (ℕ × Member F))
      → Covered c r.offers players
      → 0 < id
      → Covered c (marked r k o id by_default).offers (insert k m players)
  marked-Covered c r k id by_default o m players covered pos p o' found undecided =
      let mine = record o { selected_id = id; defaulted = by_default } in
      let now = lookup-insert k p mine r.offers in
      let there = lookup-insert k p m players in
      elim (Bool-cases (k == p)) [
        | inl e ↦
            let same : mine ≡ o' = ground arith in
            let taken : id ≡ 0 = ap (λ (x : Offer). x.selected_id) same ∙ undecided in
            absurd (omega arith)
        | inr e ↦
            let before : lookup p r.offers ≡ some o' = ground arith in
            let (m', found', accepts) = covered p o' before undecided in (m', ground arith, accepts)
      ]

  settle_selection-round :
      (s : Selection) (at : ℕ) (m : Member F) (r : Round) (w : World F)
      → ((settle_selection s at m r w).reward_round ≡ some r)
        × ((settle_selection s at m r w).players ≡ insert s.player_id m w.players)
        × ((settle_selection s at m r w).reward_catalog ≡ w.reward_catalog)
  unfolding emit_reward_update
  settle_selection-round s at m r w = elim (Bool-cases (complete (some r))) [
    | inl e ↦ rw e (refl, refl, refl)
    | inr e ↦ rw e (refl, refl, refl)
  ]

  -- A selection that the round commits is applied.
  pub committed-Granted :
      (w : World F) (r : Round) (at : ℕ) (o : Offer) (s : Selection)
      → IsReady w r
      → lookup s.player_id r.offers ≡ some o
      → o.selected_id ≡ 0
      → contains s.equipment_id o.equipment_ids ≡ true
      → 0 < s.equipment_id
      → commit (some r) s ≡ ok (marked r s.player_id o s.equipment_id s.defaulted)
      → Granted w s at (marked r s.player_id o s.equipment_id s.defaulted)
  unfolding apply_reward_selection
  committed-Granted w r at o s ready found undecided listed pos commits =
      let (m, there, accepts) = ready.covered s.player_id o found undecided in
      let (worn, takes) = accepts s.equipment_id listed in
      let r' = marked r s.player_id o s.equipment_id s.defaulted in
      let committed : from_round (commit w.reward_round s) ≡ ok r' =
        ap (λ x. from_round (commit x s)) ready.round ∙ ap from_round commits in
      let dressed = equipped w.reward_catalog worn.0 worn.1 worn.2 m in
      let after = settle_selection s at dressed r' w in
      let (round, players, catalog) = settle_selection-round s at dressed r' w in
      let covered =
        marked-Covered w.reward_catalog r s.player_id s.equipment_id s.defaulted o dressed w.players
          ready.covered pos in
      (
        after,
        rw (there, takes, committed, apply_reward_selection) refl,
        record {
          round = round;
          inv = marked-Inv r s.player_id s.equipment_id o s.defaulted ready.inv found listed;
          covered =
              subst (λ c. Covered c r'.offers after.players) (sym catalog)
                (subst (Covered w.reward_catalog r'.offers) (sym players) covered);
        },
      )

  default-Granted :
      (w : World F) (r : Round) (k : ℕ) (o : Offer)
      → IsReady w r
      → lookup k r.offers ≡ some o
      → o.selected_id ≡ 0
      → Granted w (default_at r o) w.tick (marked r k o (get_or o.equipment_ids 0 0) true)
  default-Granted w r k o ready found undecided =
      let id = get_or o.equipment_ids 0 0 in
      let (low, good) = lookup-IsGood 0 r.deadline k o r.offers (ready.inv).offers_good found in
      let (first, listed, pos) = first_id-good k r.deadline o good in
      let here : lookup o.player_id r.offers ≡ some o =
        ap (λ i. lookup i r.offers) good.owner ∙ found in
      let same : marked r o.player_id o id true ≡ marked r k o id true =
        ap (λ i. marked r i o id true) good.owner in
      subst (Granted w (default_at r o) w.tick) same (
        committed-Granted w r w.tick o (default_at r o) ready here undecided listed pos
          (open_step r k o ready.inv found good undecided ∙ ap ok (sym same)))

  -- All defaults of the entries exist and can be applied one after the other.
  defaults-apply :
      (m : Offers) (lo : ℕ) (w : World F) (r : Round)
      → IsReady w r
      → AllGood lo r.deadline m
      → Standing r.offers m
      → (ss : List Selection) × (defaults r.address (values m) ≡ some ss)
        × ((w' : World F) × (r' : Round) × (apply_defaults ss w ≡ some w') × IsReady w' r')
  unfolding defaults apply_defaults
  defaults-apply [] lo w r ready g s = ([], refl, (w, r, refl, ready))
  defaults-apply ((k, o) ∷ rest) lo w r ready g s = elim (Bool-cases (o.selected_id == 0)) [
    | inr e ↦
        let (ss, due, applied) = defaults-apply rest k w r ready g.2 s.1 in
        let decided : o.selected_id ≢ 0 = ground arith in
        (ss, defaults-taken r.address o (values rest) decided ∙ due, applied)
    | inl e ↦
        let undecided : o.selected_id ≡ 0 = ground arith in
        let id = get_or o.equipment_ids 0 0 in
        let (first, listed, pos) = first_id-good k r.deadline o g.1 in
        let (w1, granted, ready1) = default-Granted w r k o ready s.0 undecided in
        let (ss, due, (w2, r2, applied, ready2)) =
          defaults-apply rest k w1 (marked r k o id true) ready1 g.2 (
            insert-Standing k k r.deadline (record o { selected_id = id; defaulted = true }) rest
              r.offers (omega arith) g.2 s.1) in
        (
          default_of r.address o id ∷ ss,
          defaults-open r.address id o (values rest) ss undecided first due,
          (w2, r2, rw (granted, apply_defaults) applied, ready2),
        )
  ]

  -- In a world that is ready for its round `stepReward` does not panic, whatever the tick.
  pub step_reward-IsReady :
      (w : World F) (r : Round)
      → IsReady w r
      → (w' : World F) × (r' : Round) × (step_reward w ≡ some w') × IsReady w' r'
  unfolding step_reward apply_defaults
  step_reward-IsReady w r ready = elim (Bool-cases (is_stage reward w)) [
    | inr e ↦ (w, r, rw (e, step_reward) refl, ready)
    | inl e ↦ elim (Bool-cases (leb w.tick r.deadline)) [
      | inl early ↦
          let due = due_defaults-early w.reward_round w.tick r ready.round early in
          (w, r, rw (e, step_reward, due) refl, ready)
      | inr late ↦
          let good = (ready.inv).offers_good in
          let due = due_defaults-open w.reward_round w.tick r ready.round ready.inv late in
          let (ss, listed, (w', r', applied, ready')) =
            defaults-apply r.offers 0 w r ready good
              (part-Standing 0 r.deadline r.offers r.offers good λ k o h. h) in
          (w', r', rw (e, step_reward, due, listed) applied, ready')
    ]
  ]
