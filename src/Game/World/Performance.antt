-- ===== src/Game/World/Performance.antt =====
-- server/internal/game/performance.go: what a stage measures of the players.
use the_return_of_the_odysse.Base.{
  ℕ, ◌+◌, ◌-◌, ◌*◌, ◌^◌, Bool, true, not, ◌||◌, List, [], ◌∷◌, ◌++◌, ◌==◌, if◌then◌else◌, length,
}
use the_return_of_the_odysse.Base.Words.{u64}
use the_return_of_the_odysse.Base.Floats.{Float64, zero_f, one_f}
use the_return_of_the_odysse.Base.Results.{Result, ok, ◌>>=◌, ◌>>◌, reject_if}
use the_return_of_the_odysse.Game.Stage.{stage_clear, reward, preparing_next_stage, Plan}
use the_return_of_the_odysse.Game.Config.{tick_rate, step_seconds}
use the_return_of_the_odysse.Game.World.{
  Error, performance_unavailable, Member, PerformanceMetrics, World, is_stage,
}

-- `StageResult`
pub record StageResult (F : Type 0) : Type 0 where
  pub plan : Plan F
  pub performance : PerformanceMetrics F

-- The stage is won: `StageClear`, `Reward` or `PreparingNextStage`.
abbrev pub is_won : {F : Type 0} → World F → Bool
is_won w = is_stage stage_clear w || is_stage reward w || is_stage preparing_next_stage w

-- `PerformanceMetrics`
unfoldable pub performance_metrics : {F : Type 0} → World F → Result Error (PerformanceMetrics F)
performance_metrics w =
    reject_if (not (w.performance).ready || not (is_won w)) performance_unavailable
    >> ok (w.performance).frozen

-- `CompletedStage`
unfoldable pub completed_stage : {F : Type 0} → World F → Result Error (StageResult F)
unfolding performance_metrics
completed_stage w =
    performance_metrics w >>= λ p. ok (record { plan = w.current_plan; performance = p })

module _ {F : Type 0} ⦃f : Float64 F⦄ where
  open f use {lit, of_nat, add, mul, div, abs, lt, le}

  -- `statRatio`
  abbrev pub stat_ratio : F → F → F
  stat_ratio current base =
      if lt (abs base) (lit 1 12)
      then (if lt (abs current) (lit 1 12) then one_f else add one_f current)
      else div current base

  -- The two sums of `freezePerformance` over the players.
  abbrev pub sum_health : List (ℕ × Member F) → F × F → F × F
  sum_health [] sums = sums
  sum_health (entry ∷ rest) (health, most) =
      let p = (entry.1).player in
      sum_health rest (add health p.health, add most (p.current_stats).max_health)

  -- The sum of `equipmentPower` over the players and their five ratios.
  abbrev pub sum_power : List (ℕ × Member F) → F → F
  sum_power [] total = total
  sum_power (entry ∷ rest) total =
      let base = ((entry.1).player).base_stats in
      let current = ((entry.1).player).current_stats in
      let t1 = add total (stat_ratio current.attack base.attack) in
      let t2 = add t1 (div (add (lit 100 0) current.defense) (add (lit 100 0) base.defense)) in
      let t3 = add t2 (stat_ratio current.max_health base.max_health) in
      let t4 = add t3 (stat_ratio current.move_speed base.move_speed) in
      sum_power rest
        (add t4 (div (of_nat base.attack_cooldown_ticks) (of_nat current.attack_cooldown_ticks)))

  -- `equipmentPower`
  unfoldable pub team_power : World F → F
  team_power w =
      if length w.players == 0
      then one_f
      else div (sum_power w.players zero_f) (of_nat (length w.players * 5))

  -- The metrics that `freezePerformance` computes.
  unfoldable pub measured : World F → PerformanceMetrics F
  measured w =
      let p = w.performance in
      let seconds = div (of_nat (u64 (w.tick + (2 ^ 64 - p.started_at_tick)))) (of_nat tick_rate) in
      let clear_time = if le seconds zero_f then step_seconds else seconds in
      let (health, most) = sum_health w.players (zero_f, zero_f) in
      record {
        clear_time_seconds = clear_time;
        team_hp_percent = if lt zero_f most then div health most else zero_f;
        average_dps = div p.damage_dealt clear_time;
        death_count = p.death_count;
        damage_taken = p.damage_taken;
        equipment_power = p.equipment_power;
      }

  -- `freezePerformance`
  unfoldable pub freeze_performance : World F → World F
  freeze_performance w =
      let p = w.performance in
      let metrics = measured w in
      record w {
        performance = record p { frozen = metrics; ready = true };
        completed_stages =
            w.completed_stages
            ++ record {
              index = (w.current_plan).index;
              seed = (w.current_plan).seed;
              difficulty_score = (w.current_plan).difficulty_score;
              clear_tick = w.tick;
              performance = metrics;
            }
              ∷ [];
      }
