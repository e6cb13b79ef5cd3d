-- ===== src/Game/World/Promises/Keeping.antt =====
-- What the calls between two choices leave of the promise: players who come to no harm.
use the_return_of_the_odysse.Base.{
  ℕ, ◌≡◌, refl, sym, ap, subst, ◌∙◌, inl, inr, Bool, true, false, not, ◌&&◌, some, List, [], ◌∷◌,
  arith, leb, ◌==◌, if◌then◌else◌, if_both, Bool-cases, Option-cases,
}
use the_return_of_the_odysse.Base.Floats.{Float64}
use the_return_of_the_odysse.Base.Maps.{lookup, insert, lookup-insert}
use the_return_of_the_odysse.Base.Results.{ok}
use the_return_of_the_odysse.Game.Entity.{CombatStats, Vec2}
use the_return_of_the_odysse.Game.Equipment.{Catalog}
use the_return_of_the_odysse.Game.Loadout.{Loadout, apply}
use the_return_of_the_odysse.Game.Reward.{Offers, Round}
use the_return_of_the_odysse.Game.Stage.{reward, playing, is_state}
use the_return_of_the_odysse.Game.Config.{tick_rate}
use the_return_of_the_odysse.Game.Systems.{move}
use the_return_of_the_odysse.Game.World.{
  Input, Member, World, is_stage, change_all, valid_input, world_apply_input, merged,
}
use the_return_of_the_odysse.Game.World.Pickups.{collect_pickups}
use the_return_of_the_odysse.Game.World.Combat.{step_combat}
use the_return_of_the_odysse.Game.World.Core.{Core, core-step_players}
use the_return_of_the_odysse.Game.World.Ticks.{
  turned, processed, heeded, walked, heading, is_fresh, step_member, step_players, step,
}
use the_return_of_the_odysse.Game.World.Transitions.{is_state_eq}
use the_return_of_the_odysse.Game.World.Promises.{Accepts, Covered, IsReady, step_reward-IsReady}

if_not :
    {A : Type 0} (Q : A → Type 0) (b : Bool) (x y : A) → b ≡ false → Q y → Q (if b then x else y)
if_not Q true x y h q = cc
if_not Q false x y h q = q

lookup-change_all :
    {V : Type 0} (change : V → V) (p : ℕ) (v : V) (m : List (ℕ × V))
    → lookup p m ≡ some v
    → lookup p (change_all change m) ≡ some (change v)
lookup-change_all change p v [] h = cc
lookup-change_all change p v (entry ∷ rest) h = elim (Bool-cases (entry.0 == p)) [
  | inl e ↦ let same : entry.1 ≡ v = ground arith in rw (e, same) refl
  | inr e ↦ let later = lookup-change_all change p v rest (ground arith) in rw e later
]

module _ {F : Type 0} ⦃f : Float64 F⦄ where
  open f use {same}

  -- What `Apply` reads of a player.
  abbrev gear : Member F → CombatStats F × F × Loadout
  gear m = ((m.player).base_stats, (m.player).health, m.loadout)

  -- Every player is there still, with the same gear.
  abbrev Keeps : List (ℕ × Member F) → List (ℕ × Member F) → Type 0
  Keeps players players' =
      (p : ℕ) (m : Member F)
      → lookup p players ≡ some m
      → (m' : Member F) × (lookup p players' ≡ some m') × (gear m ≡ gear m')

  gear-Accepts :
      (c : Catalog F) (id : ℕ) (m m' : Member F)
      → gear m ≡ gear m'
      → Accepts c id m
      → Accepts c id m'
  gear-Accepts c id m m' e a =
      subst
        (λ (g : CombatStats F × F × Loadout).
          (x : Loadout × CombatStats F × F) × (apply g.0 g.1 g.2 id c tick_rate ≡ ok x))
        e a

  Keeps-Covered :
      (c : Catalog F) (offers : Offers) (players players' : List (ℕ × Member F))
      → Keeps players players'
      → Covered c offers players
      → Covered c offers players'
  Keeps-Covered c offers players players' keeps covered p o found undecided =
      let (m, there, accepts) = covered p o found undecided in
      let (m', there', e) = keeps p m there in
      (m', there', λ id listed. gear-Accepts c id m m' e (accepts id listed))

  -- The promise reads the round, the catalogue and the players alone.
  pub IsReady-kept :
      (w w' : World F) (r : Round)
      → IsReady w r
      → w.reward_round ≡ w'.reward_round
      → w.reward_catalog ≡ w'.reward_catalog
      → Keeps w.players w'.players
      → IsReady w' r
  IsReady-kept w w' r ready round catalog keeps = record {
    round = sym round ∙ ready.round;
    inv = ready.inv;
    covered =
        subst (λ c. Covered c r.offers w'.players) catalog
          (Keeps-Covered w.reward_catalog r.offers w.players w'.players keeps ready.covered);
  }

  Keeps-refl : (players : List (ℕ × Member F)) → Keeps players players
  Keeps-refl players p m h = (m, h, refl)

  pub IsReady-same :
      (w w' : World F) (r : Round)
      → IsReady w r
      → w.reward_round ≡ w'.reward_round
      → w.reward_catalog ≡ w'.reward_catalog
      → w.players ≡ w'.players
      → IsReady w' r
  IsReady-same w w' r ready round catalog players =
      IsReady-kept w w' r ready round catalog
        (subst (Keeps w.players) players (Keeps-refl w.players))

  processed-gear :
      (w : World F) (m : Member F) → is_stage playing w ≡ false → gear m ≡ gear (processed w m)
  unfolding processed
  processed-gear w m off =
      let Q = λ (x : Member F). gear m ≡ gear x in
      if_not Q (is_stage playing w && (m.input).reload) _ _ (ground arith)
        (if_not Q (is_stage playing w && (m.input).use_potion) _ _ (ground arith) refl)

  turned-gear : (m : Member F) → gear m ≡ gear (turned m)
  turned-gear m = ground arith

  heeded-gear :
      (w : World F) (m : Member F) → is_stage playing w ≡ false → gear m ≡ gear (heeded w m)
  unfolding heeded
  heeded-gear w m off =
      let aimed = record m { firing = is_stage playing w && (m.input).shoot } in
      let e = turned-gear aimed in
      if_both (λ (x : Member F). gear m ≡ gear x) m.pending
        (e ∙ processed-gear w (turned aimed) off) e

  walked-gear : (w : World F) (d : Vec2 F) (m : Member F) → gear m ≡ gear (walked w d m)
  unfolding walked move
  walked-gear w d m = refl

  step_member-gear :
      (now : ℕ) (w : World F) (m : Member F)
      → is_stage playing w ≡ false
      → gear m ≡ gear (step_member now w m)
  unfolding step_member
  step_member-gear now w m off =
      let idle = record m { firing = false } in
      let heard = if is_fresh now w m then heeded w idle else idle in
      let Q = λ (x : Member F). gear m ≡ gear x in
      let e : gear m ≡ gear heard = if_both Q (is_fresh now w m) (heeded-gear w idle off) refl in
      let done = record heard { pending = if leb m.received_at now then false else m.pending } in
      if_both Q (m.player).alive (e ∙ walked-gear w (heading now w m) done) refl

  step_players-calm :
      (now : ℕ) (w : World F)
      → is_stage playing w ≡ false
      → (step_players now w).players ≡ change_all (step_member now w) w.players
  unfolding step_players collect_pickups
  step_players-calm now w off = rw off refl

  step_players-IsReady :
      (now : ℕ) (w : World F) (r : Round)
      → is_stage playing w ≡ false
      → IsReady w r
      → IsReady (step_players now w) r
  step_players-IsReady now w r off ready =
      let k = core-step_players now w in
      IsReady-kept w (step_players now w) r ready (sym (ap (λ (c : Core F). c.reward_round) k))
        (sym (ap (λ (c : Core F). c.reward_catalog) k))
        (subst (Keeps w.players) (sym (step_players-calm now w off)) λ p m h. (
          step_member now w m,
          lookup-change_all (step_member now w) p m w.players h,
          step_member-gear now w m off,
        ))

  reward_calm : (w : World F) → is_stage reward w ≡ true → is_stage playing w ≡ false
  reward_calm w e = ap (λ s. is_state s playing) (is_state_eq (w.stage).state reward e)

  step_combat-calm : (w : World F) → is_stage playing w ≡ false → step_combat w ≡ some w
  unfolding step_combat
  step_combat-calm w off = rw (off, step_combat) refl

  -- A whole tick of a stage's rewards goes through.
  pub step-IsReady :
      (now : ℕ) (w : World F) (r : Round)
      → is_stage reward w ≡ true
      → IsReady w r
      → (w' : World F) × (r' : Round) × (step now w ≡ some w') × IsReady w' r'
  unfolding step
  step-IsReady now w r on ready =
      let off = reward_calm w on in
      let w1 = step_players now w in
      let off1 : is_stage playing w1 ≡ false =
        ap (λ (c : Core F). is_state (c.stage).state playing) (core-step_players now w) ∙ off in
      let (w', r', done, ready') =
        step_reward-IsReady w1 r (step_players-IsReady now w r off ready) in
      (w', r', rw (step_combat-calm w1 off1, step) done, ready')

  insert-Keeps :
      (id : ℕ) (m heard : Member F) (players : List (ℕ × Member F))
      → lookup id players ≡ some m
      → gear m ≡ gear heard
      → Keeps players (insert id heard players)
  insert-Keeps id m heard players n e p m' h =
      let now = lookup-insert id p heard players in
      elim (Bool-cases (id == p)) [
        | inl t ↦
            let at_p : id ≡ p = ground arith in
            let both : some m ≡ some m' = sym n ∙ ap (λ i. lookup i players) at_p ∙ h in
            let same_ : m ≡ m' = ground arith in
            let there : lookup p (insert id heard players) ≡ some heard = ground arith in
            (heard, there, sym (ap gear same_) ∙ e)
        | inr t ↦
            let there : lookup p (insert id heard players) ≡ some m' = ground arith in
            (m', there, refl)
      ]

  pub world_apply_input-IsReady :
      (id : ℕ) (i : Input F) (at : ℕ) (w w' : World F) (r : Round)
      → world_apply_input id i at w ≡ ok w'
      → IsReady w r
      → IsReady w' r
  unfolding world_apply_input
  world_apply_input-IsReady id i at w w' r h ready = elim (Bool-cases (not (valid_input i))) [
    | inl x ↦ ground arith
    | inr x ↦ elim (Option-cases (lookup id w.players)) [
      | inl n ↦ ground arith
      | inr (m, n) ↦
          let heard = record m { input = merged m i; received_at = at; pending = true } in
          let after = record w { players = insert id heard w.players } in
          let k : after ≡ w' = ground arith in
          let keeps : Keeps w.players after.players = insert-Keeps id m heard w.players n refl in
          subst (λ x. IsReady x r) k (IsReady-kept w after r ready refl refl keeps)
    ]
  ]
