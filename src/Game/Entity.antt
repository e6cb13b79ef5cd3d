-- ===== src/Game/Entity.antt =====
-- server/internal/game/entity: the values that a world holds. `F` stands for `float64`. IDs are 64-bit
-- numbers. `CombatStats.Valid` and `Vec2.Finite` are here as well.
use the_return_of_the_odysse.Base.{ℕ, Bool, not, ◌&&◌, ◌||◌, ltb}
use the_return_of_the_odysse.Base.Floats.{Float64, zero_f, odd_f}

pub record Vec2 (F : Type 0) : Type 0 where
  pub x : F
  pub y : F

pub record CombatStats (F : Type 0) : Type 0 where
  pub attack : F
  pub defense : F
  pub max_health : F
  pub move_speed : F
  pub attack_cooldown_ticks : ℕ

pub record EquipmentState : Type 0 where
  pub weapon_id : ℕ
  pub relic_id : ℕ
  pub potion_id : ℕ

pub record Player (F : Type 0) : Type 0 where
  pub id : ℕ
  pub position : Vec2 F
  pub velocity : Vec2 F
  pub last_processed_input_seq : ℕ
  pub base_stats : CombatStats F
  pub current_stats : CombatStats F
  pub health : F
  pub alive : Bool
  pub aim : Vec2 F
  pub equipment : EquipmentState
  pub ammo : ℕ
  pub magazine_capacity : ℕ
  pub reload_ticks_remaining : ℕ
  pub reload_duration_ticks : ℕ

pub data MonsterState : Type 0 where
  monster_idle monster_chase monster_attack monster_dead : MonsterState

pub record Monster (F : Type 0) : Type 0 where
  pub id : ℕ
  pub position : Vec2 F
  pub velocity : Vec2 F
  pub base_stats : CombatStats F
  pub current_stats : CombatStats F
  pub health : F
  pub radius : F
  pub attack_range : F
  pub state : MonsterState

pub record Projectile (F : Type 0) : Type 0 where
  pub id : ℕ
  pub owner_id : ℕ
  pub position : Vec2 F
  pub velocity : Vec2 F
  pub attack : F
  pub radius : F
  pub expires_at_tick : ℕ

module _ {F : Type 0} ⦃f : Float64 F⦄ where
  open f use {lit, lt}

  -- `Vec2{}`
  abbrev pub origin : Vec2 F
  origin = record { x = zero_f; y = zero_f }

  -- `Vec2.Finite`
  unfoldable pub finite : Vec2 F → Bool
  finite v = not (odd_f v.x) && not (odd_f v.y)

  -- One round of the loop of `CombatStats.Valid`.
  abbrev pub bad_stat : F → Bool
  bad_stat v = odd_f v || lt v zero_f || lt (lit 1_000_000 0) v

  -- `CombatStats.Valid`
  unfoldable pub valid_stats : CombatStats F → Bool
  valid_stats s =
      not
        (bad_stat s.attack || bad_stat s.defense || bad_stat s.max_health || bad_stat s.move_speed)
      && lt zero_f s.max_health
      && ltb 0 s.attack_cooldown_ticks
