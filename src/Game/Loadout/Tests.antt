-- ===== src/Game/Loadout/Tests.antt =====
-- loadout.go: equipping a bow and drinking a tonic.
use the_return_of_the_odysse.Base.{ℕ, ◌≡◌, ◌≢◌, refl, true, some, min, ◌+◌}
use the_return_of_the_odysse.Base.Floats.{thousandths}
use the_return_of_the_odysse.Base.Maps.{lookup}
use the_return_of_the_odysse.Base.Results.{ok, err}
use the_return_of_the_odysse.Game.Entity.{CombatStats, valid_stats}
use the_return_of_the_odysse.Game.Equipment.{
  Definition, potion, no_potion, validate, bad_modifier, bad_modifiers, require_, finite_positive,
}
use the_return_of_the_odysse.Game.Equipment.Tests.{bow, tonic, shop}
use the_return_of_the_odysse.Game.Loadout.{
  Loadout, equip, modify, wear, settle, resolve, apply, use_potion,
}
use the_return_of_the_odysse.Game.Loadout.Effects.{Placed, apply-Placed, use_potion-once}

abbrev bare : CombatStats ℕ
bare = record {
  attack = 20_000;
  defense = 0;
  max_health = 100_000;
  move_speed = 5_000;
  attack_cooldown_ticks = 6;
}

abbrev armed : CombatStats ℕ
armed = record bare { attack = 24_000 }

abbrev with_tonic : Loadout
with_tonic = record { weapon_id = 0; relic_id = 0; potion_id = 2 }

abbrev low_health : ℕ
low_health = 60_000

abbrev high_health : ℕ
high_health = 90_000

abbrev with_both : Loadout
with_both = record { weapon_id = 5; relic_id = 0; potion_id = 2 }

bow_applied : apply bare low_health with_tonic 5 shop 30 ≡ ok (with_both, armed, low_health)
unfolding apply equip resolve wear modify settle require_ validate bad_modifiers bad_modifier
    valid_stats finite_positive
bow_applied = refl

apply-Placed_example :
    (d : Definition ℕ) × (lookup bow.id shop.items ≡ some d)
    × (validate d ≡ ok tt)
    × Placed d.slot d.id with_tonic with_both
    × (resolve bare with_both shop 30 ≡ ok armed)
    × (valid_stats armed ≡ true)
    × (low_health ≡ min low_health 100_000)
apply-Placed_example =
    apply-Placed bare low_health with_tonic 5 shop 30 with_both armed low_health bow_applied

abbrev empty_handed : Loadout
empty_handed = record { weapon_id = 0; relic_id = 0; potion_id = 0 }

tonic_drunk : use_potion with_tonic low_health 100_000 shop ≡ ok (empty_handed, high_health, 2)
unfolding use_potion require_
tonic_drunk = refl

use_potion-once_example :
    (tonic.id ≢ 0)
    × (tonic.id ≡ with_tonic.potion_id)
    × Placed potion 0 with_tonic empty_handed
    × ((d : Definition ℕ) × (lookup tonic.id shop.items ≡ some d)
        × (d.slot ≡ potion)
        × (high_health ≡ min 100_000 (low_health + d.heal)))
    × ((base : CombatStats ℕ) (rate : ℕ)
        → resolve base empty_handed shop rate ≡ resolve base with_tonic shop rate)
    × ((now limit : ℕ) → use_potion empty_handed now limit shop ≡ err no_potion)
use_potion-once_example =
    use_potion-once with_tonic empty_handed low_health 100_000 high_health shop 2 tonic_drunk
