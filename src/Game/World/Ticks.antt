-- ===== src/Game/World/Ticks.antt =====
-- server/internal/game/world.go: `Step`, one tick of the world. `none` is a panic.
use the_return_of_the_odysse.Base.{
  ℕ, ◌+◌, ◌-◌, Bool, false, not, ◌&&◌, ◌||◌, Option, none, some, ltb, leb, ◌==◌, if◌then◌else◌,
}
use the_return_of_the_odysse.Base.Words.{u64}
use the_return_of_the_odysse.Base.Floats.{Float64, zero_f}
use the_return_of_the_odysse.Game.Entity.{Vec2, origin}
use the_return_of_the_odysse.Game.Stage.{waiting, playing}
use the_return_of_the_odysse.Game.Config.{step_seconds}
use the_return_of_the_odysse.Game.Systems.{unit_direction, move}
use the_return_of_the_odysse.Game.Arena.{move_with_cover}
use the_return_of_the_odysse.Game.World.{Member, World, is_stage, change_all}
use the_return_of_the_odysse.Game.World.Ammo.{start_reload, player_use_potion}
use the_return_of_the_odysse.Game.World.Pickups.{collect_pickups}
use the_return_of_the_odysse.Game.World.Combat.{step_combat}
use the_return_of_the_odysse.Game.World.Rewards.{step_reward}

module _ {F : Type 0} ⦃f : Float64 F⦄ where
  open f use {lit, sub, div, same}

  -- `fresh` in `Step`
  abbrev pub is_fresh : ℕ → World F → Member F → Bool
  is_fresh now w m =
      not ((m.input).seq == 0)
      && leb m.received_at now
      && ltb (now - m.received_at) (w.config).input_timeout

  -- The player's aim, if the input has one.
  abbrev pub turned : Member F → Member F
  turned m =
      let p = m.player in
      let aim = (m.input).aim in
      if not (same aim.x zero_f) || not (same aim.y zero_f)
      then record m { player = record p { aim = unit_direction aim } }
      else m

  -- What a pending input does once: its number is processed, the potion and the reload start.
  unfoldable pub processed : World F → Member F → Member F
  processed w m =
      let p = m.player in
      let seen = record m { player = record p { last_processed_input_seq = (m.input).seq } } in
      let drunk =
        if is_stage playing w && (m.input).use_potion
        then player_use_potion w.reward_catalog seen
        else seen in
      if is_stage playing w && (m.input).reload then start_reload drunk else drunk

  -- The part of a round for a fresh input.
  unfoldable pub heeded : World F → Member F → Member F
  unfolding processed
  heeded w m =
      let facing = turned (record m { firing = is_stage playing w && (m.input).shoot }) in
      if m.pending then processed w facing else facing

  -- The move at the end of a round, around the covers.
  unfoldable pub walked : World F → Vec2 F → Member F → Member F
  walked w direction m =
      let c = w.config in
      let previous = (m.player).position in
      let p =
        move m.player direction ((m.player).current_stats).move_speed step_seconds c.min_corner
          c.max_corner in
      let position =
        move_with_cover c w.covers previous
          (record { x = sub (p.position).x previous.x; y = sub (p.position).y previous.y })
          (lit 32 2) in
      record m {
        player = record p {
          position = position;
          velocity = record {
            x = div (sub position.x previous.x) step_seconds;
            y = div (sub position.y previous.y) step_seconds;
          };
        };
      }

  -- The direction that a round moves in.
  abbrev pub heading : ℕ → World F → Member F → Vec2 F
  heading now w m =
      if is_fresh now w m && (is_stage waiting w || is_stage playing w)
      then (m.input).direction
      else origin

  -- One round of the loop of `Step` over the players.
  unfoldable pub step_member : ℕ → World F → Member F → Member F
  unfolding heeded walked
  step_member now w m =
      let idle = record m { firing = false } in
      let p = m.player in
      let heard = if is_fresh now w m then heeded w idle else idle in
      let done = record heard { pending = if leb m.received_at now then false else m.pending } in
      if p.alive
      then walked w (heading now w m) done
      else record idle { player = record p { reload_ticks_remaining = 0; velocity = origin } }

  -- `Step` up to the tick's number.
  unfoldable pub step_players : ℕ → World F → World F
  unfolding step_member
  step_players now w =
      let moved =
        collect_pickups (record w { players = change_all (step_member now w) w.players }) in
      record moved { tick = u64 (moved.tick + 1) }

  -- `Step`
  unfoldable pub step : ℕ → World F → Option (World F)
  unfolding step_players
  step now w = elim (step_combat (step_players now w)) [ none ↦ none | some w' ↦ step_reward w' ]
