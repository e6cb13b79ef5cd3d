-- ===== src/Game/World/Damage.antt =====
-- server/internal/game/combat.go: projectiles that end, and `applyDamage`. `none` is a panic.
use the_return_of_the_odysse.Base.{
  ℕ, ◌+◌, Bool, true, false, not, Option, none, some, List, [], ◌∷◌, if◌then◌else◌,
}
use the_return_of_the_odysse.Base.Floats.{Float64, zero_f}
use the_return_of_the_odysse.Base.Maps.{lookup, insert, erase}
use the_return_of_the_odysse.Game.Entity.{Projectile, origin, monster_dead}
use the_return_of_the_odysse.Game.Systems.{DamageRequest, DamageResolved, resolve_damage}
use the_return_of_the_odysse.Game.World.{
  Member, Foe, projectile_destroyed, damage_dealt, entity_died, World,
}
use the_return_of_the_odysse.Game.World.Stages.{emit, blank_event}

module _ {F : Type 0} ⦃f : Float64 F⦄ where
  open f use {add, sub, same}

  -- `destroyProjectile`
  unfoldable pub destroy_projectile : Projectile F → World F → World F
  destroy_projectile p w =
      let gone = blank_event projectile_destroyed in
      emit (record gone { entity_id = p.id; source_id = p.owner_id; position = p.position })
        (record w { projectiles = erase p.id w.projectiles })

  -- The player after the damage.
  abbrev pub hurt : DamageResolved F → Member F → Member F
  hurt r m =
      let p = m.player in
      record m {
        player = record p {
          health = r.remaining_health;
          alive = not r.killed;
          velocity = if r.killed then origin else p.velocity;
        };
        firing = if r.killed then false else m.firing;
      }

  -- `applyDamage` on a player, before the events.
  abbrev pub hurt_player : ℕ → DamageResolved F → Member F → World F → World F
  hurt_player id r m w =
      let stats = w.performance in
      record w {
        players = insert id (hurt r m) w.players;
        performance = record stats {
          damage_taken = add stats.damage_taken r.amount;
          death_count = if r.killed then stats.death_count + 1 else stats.death_count;
        };
      }

  -- The monster after the damage.
  abbrev pub wounded : DamageResolved F → Foe F → Foe F
  wounded r e =
      let m = e.monster in
      record e {
        monster = record m {
          health = r.remaining_health;
          state = if r.killed then monster_dead else m.state;
        };
      }

  abbrev pub has_player : Option (Member F) → Bool
  has_player none = false
  has_player (some m) = true

  -- `applyDamage` on a monster, before the events.
  abbrev pub hurt_monster : ℕ → ℕ → DamageResolved F → Foe F → World F → World F
  hurt_monster id source r e w =
      let stats = w.performance in
      record w {
        monsters = insert id (wounded r e) w.monsters;
        performance = record stats {
          damage_dealt =
              if has_player (lookup source w.players)
              then add stats.damage_dealt r.amount
              else stats.damage_dealt;
        };
      }

  -- The events at the end of `applyDamage`.
  abbrev pub tell_damage : DamageRequest F → DamageResolved F → World F → World F
  tell_damage q r w =
      let dealt = blank_event damage_dealt in
      let death = blank_event entity_died in
      let told =
        emit
          (record dealt {
            source_id = q.source_id;
            target_id = q.target_id;
            amount = r.amount;
            health = r.remaining_health;
          })
          w in
      if r.killed
      then emit (record death { entity_id = q.target_id; source_id = q.source_id }) told
      else told

  -- Damage to one target, given its health and defense, and how it is changed.
  abbrev pub strike :
      DamageRequest F → F → F → (DamageResolved F → World F) → World F → Option (World F)
  strike q health defense change w = elim (resolve_damage q.attack defense health) [
    | none ↦ none
    | some r ↦ some (if same r.amount zero_f then w else tell_damage q r (change r))
  ]

  -- `applyDamage`
  unfoldable pub apply_damage : DamageRequest F → World F → Option (World F)
  unfolding resolve_damage
  apply_damage q w = elim q.target_player [
    | true ↦ elim (lookup q.target_id w.players) [
      | none ↦ some w
      | some m ↦ elim ((m.player).alive) [
        | false ↦ some w
        | true ↦
            strike q (m.player).health ((m.player).current_stats).defense
              (λ r. hurt_player q.target_id r m w) w
      ]
    ]
    | false ↦ elim (lookup q.target_id w.monsters) [
      | none ↦ some w
      | some e ↦ elim (same (e.monster).health zero_f) [
        | true ↦ some w
        | false ↦
            strike q (e.monster).health ((e.monster).current_stats).defense
              (λ r. hurt_monster q.target_id q.source_id r e w) w
      ]
    ]
  ]

  -- The loop over the requests.
  unfoldable pub apply_all : List (DamageRequest F) → World F → Option (World F)
  apply_all [] w = some w
  apply_all (q ∷ qs) w = elim (apply_damage q w) [ none ↦ none | some w' ↦ apply_all qs w' ]
