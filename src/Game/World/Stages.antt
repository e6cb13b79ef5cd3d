-- ===== src/Game/World/Stages.antt =====
-- server/internal/game/combat.go: the event queue, and the start of a stage.
use the_return_of_the_odysse.Base.{
  ℕ, ◌+◌, Bool, true, false, not, ◌&&◌, ◌||◌, none, List, [], ◌∷◌, ◌++◌, leb, ◌==◌, if◌then◌else◌,
  length,
}
use the_return_of_the_odysse.Base.Words.{u32, u64}
use the_return_of_the_odysse.Base.Floats.{Float64, zero_f}
use the_return_of_the_odysse.Base.Maps.{insert}
use the_return_of_the_odysse.Base.Results.{Result, ok, ◌>>◌, reject_if}
use the_return_of_the_odysse.Game.Entity.{Vec2, origin, monster_idle}
use the_return_of_the_odysse.Game.Stage.{waiting, playing, preparing_next_stage, Spawn, Plan, View}
use the_return_of_the_odysse.Game.Config.{valid_stage}
use the_return_of_the_odysse.Game.Reward.{complete}
use the_return_of_the_odysse.Game.Arena.{build_cover_blocks, clear_spawn_from_cover}
use the_return_of_the_odysse.Game.World.{
  Error, invalid_plan, stage_state, stage_index, Member, Foe, Event, EventKind, stage_started,
  World, is_stage, allocate_id, change_all, max_pending_events, fresh_performance,
}
use the_return_of_the_odysse.Game.World.Performance.{team_power}
use the_return_of_the_odysse.Game.World.Pickups.{spawn_stage_pickups}

-- `emit`: a full queue only sets the overflow flag.
unfoldable pub emit : {F : Type 0} → Event F → World F → World F
emit e w =
    let dated = if e.server_tick == 0 then record e { server_tick = w.tick } else e in
    let full = leb max_pending_events (length w.events) in
    record w {
      events = if full then w.events else w.events ++ dated ∷ [];
      event_overflow = full || w.event_overflow;
    }

-- `TakeEvents`: the batch and its overflow, and the world.
unfoldable pub take_events : {F : Type 0} → World F → (List (Event F) × Bool) × World F
take_events w = ((w.events, w.event_overflow), record w { events = []; event_overflow = false })

-- `livingPlayers`
abbrev pub living : {F : Type 0} → List (ℕ × Member F) → ℕ
living [] = 0
living (entry ∷ rest) = if ((entry.1).player).alive then 1 + living rest else living rest

module _ {F : Type 0} ⦃f : Float64 F⦄ where
  open f use {lit, mul}

  -- An event with nothing set but its kind.
  abbrev pub blank_event : EventKind → Event F
  blank_event kind = record {
    kind = kind;
    stage_index = 0;
    server_tick = 0;
    entity_id = 0;
    source_id = 0;
    target_id = 0;
    position = origin;
    velocity = origin;
    amount = zero_f;
    health = zero_f;
    expires_at_tick = 0;
  }

  -- What a player is reset to before a later stage.
  abbrev pub returned : Vec2 F → Member F → Member F
  returned spawn m =
      let p = m.player in
      let i = m.input in
      let health = if p.alive then p.health else mul (p.current_stats).max_health (lit 5 1) in
      record m {
        player = record p { position = spawn; velocity = origin; alive = true; health = health };
        input = record i {
          direction = origin;
          aim = origin;
          shoot = false;
          use_potion = false;
          reload = false;
        };
        received_at = 0;
        pending = false;
        firing = false;
      }

  -- A full magazine.
  abbrev pub refilled : Member F → Member F
  refilled m =
      let p = m.player in
      record m { player = record p { ammo = p.magazine_capacity; reload_ticks_remaining = 0 } }

  -- The loop over the plan's monsters.
  unfoldable pub spawn_all : List (Spawn F) → World F → World F
  spawn_all [] w = w
  spawn_all (s ∷ ss) w =
      let (w', id) = allocate_id w in
      let foe : Foe F = record {
        monster = record {
          id = id;
          position = clear_spawn_from_cover w.config w.covers s.position s.radius;
          velocity = origin;
          base_stats = s.stats;
          current_stats = s.stats;
          health = (s.stats).max_health;
          radius = s.radius;
          attack_range = s.attack_range;
          state = monster_idle;
        };
        previous = origin;
        target = 0;
        next_attack = 0;
      } in
      spawn_all ss (record w' { monsters = insert id foe w.monsters })

  -- The part for `next`: every player is reset, and the round is over.
  abbrev pub begin_next : World F → World F
  begin_next w = record w {
    players = change_all (returned (w.config).spawn) w.players;
    reward_round = none;
  }

  -- The part for `initial`: the run starts.
  abbrev pub begin_run : World F → World F
  begin_run w = record w {
    run_started = true;
    run_started_at_tick = w.tick;
    run_ended_at_tick = 0;
    completed_stages = [];
  }

  -- The view of a stage that starts.
  abbrev pub opening_view : Plan F → ℕ → View F
  opening_view p limit = record {
    index = p.index;
    seed = p.seed;
    state = playing;
    monsters_remaining = length p.monsters;
    stage_limit = limit;
    difficulty_score = p.difficulty_score;
    difficulty_adjustment = p.difficulty_adjustment;
    previous_clear_seconds = p.previous_clear_seconds;
    previous_team_hp = p.previous_team_hp;
  }

  -- `StartStage` after its checks, up to the refilled magazines.
  unfoldable pub readied : Plan F → World F → World F
  readied p w =
      let covered = record w { covers = build_cover_blocks w.config p.index p.seed } in
      let begun = if is_stage waiting w then begin_run covered else begin_next covered in
      record begun {
        performance = fresh_performance w.tick (team_power begun);
        current_plan = p;
        stage = opening_view p (w.config).stage_limit;
        players = change_all refilled begun.players;
      }

  -- `StartStage` after its checks.
  unfoldable pub open_stage : Plan F → World F → World F
  unfolding spawn_all readied
  open_stage p w =
      let started = blank_event stage_started in
      emit (record started { stage_index = p.index; server_tick = u64 (w.tick + 1) })
        (spawn_all p.monsters (spawn_stage_pickups p.index (readied p w)))

  -- `next` in `StartStage`
  abbrev pub may_follow : World F → Bool
  may_follow w = is_stage preparing_next_stage w && complete w.reward_round

  abbrev pub not_ready : World F → Bool
  not_ready w =
      not (is_stage waiting w || may_follow w)
      || length w.players == 0
      || (is_stage waiting w && living w.players == 0)

  abbrev pub wrong_index : Plan F → World F → Bool
  wrong_index p w = may_follow w && not (p.index == u32 ((w.stage).index + 1))

  -- `StartStage`
  unfoldable pub start_stage : Plan F → World F → Result Error (World F)
  start_stage p w = do
    reject_if (not (valid_stage p w.config)) invalid_plan
    reject_if (not_ready w) stage_state
    reject_if (wrong_index p w) stage_index
    ok (open_stage p w)
