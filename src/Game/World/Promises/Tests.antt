-- ===== src/Game/World/Promises/Tests.antt =====
-- A round with a bow and a tonic for one player, who does not choose in time.
use the_return_of_the_odysse.Base.{ℕ, ◌≡◌, refl, true, Option, none, some, List, [], ◌∷◌, arith}
use the_return_of_the_odysse.Base.Floats.{thousandths}
use the_return_of_the_odysse.Base.Sorting.{sort}
use the_return_of_the_odysse.Game.Entity.{valid_stats}
use the_return_of_the_odysse.Game.Equipment.{
  validate, bad_modifier, bad_modifiers, require_, finite_positive,
}
use the_return_of_the_odysse.Game.Equipment.Tests.{shop}
use the_return_of_the_odysse.Game.Loadout.{
  equip, modify, wear, settle, resolve, apply, magazine_capacity,
}
use the_return_of_the_odysse.Game.Config.{default_config}
use the_return_of_the_odysse.Game.Stage.{stage_clear, reward, preparing_next_stage}
use the_return_of_the_odysse.Game.World.{
  World, empty_world, empty_catalog_value, new_member, with_stage, is_set, is_stage,
  world_remove_player,
}
use the_return_of_the_odysse.Game.World.Ammo.{sync_magazine, sync_equipment}
use the_return_of_the_odysse.Game.World.Pickups.{collect_pickups}
use the_return_of_the_odysse.Game.World.Combat.{step_combat}
use the_return_of_the_odysse.Game.World.Rewards.{
  start_reward, choose_reward, announce, emit_reward_update, apply_reward_selection, apply_defaults,
  step_reward,
}
use the_return_of_the_odysse.Game.World.Ticks.{
  processed, heeded, walked, step_member, step_players, step,
}
use the_return_of_the_odysse.Game.World.Calls.{Call, rewards, chooses, leaves, ticks, calls}
use the_return_of_the_odysse.Game.World.Promises.Histories.{rewards_never_panic}
use the_return_of_the_odysse.Game.Systems.{move, unit_direction}
use the_return_of_the_odysse.Game.Arena.{move_with_cover}
use the_return_of_the_odysse.Game.Random.{shuffle, next}
use the_return_of_the_odysse.Game.Reward.{
  new_round, offers_of, fill_offers, make_offer, remove_player, complete, validate_choice, commit,
  due_defaults, defaults,
}

abbrev cleared : World ℕ
cleared =
    let w = empty_world {F = ℕ} default_config empty_catalog_value in
    with_stage stage_clear (record w {
      tick = 500;
      players = (7, new_member 7 default_config) ∷ [];
      stage = record w.stage { index = 1 };
    })

-- A choice that is refused, somebody unknown who leaves and a tick; the deadline is at the next one.
abbrev history : List (Call ℕ)
history = rewards 1 shop 77 1 ∷ chooses 7 9 ∷ leaves 9 ∷ ticks 600 ∷ []

abbrev or_cleared : Option (World ℕ) → World ℕ
or_cleared none = cleared
or_cleared (some w) = w

or_cleared-some : (o : Option (World ℕ)) → is_set o ≡ true → o ≡ some (or_cleared o)
or_cleared-some none h = cc
or_cleared-some (some w) h = refl

abbrev rewarding : World ℕ
rewarding = or_cleared (calls history cleared)

runs : is_set (calls history cleared) ≡ true
unfolding start_reward choose_reward world_remove_player remove_player announce emit_reward_update
    sort valid_stats validate bad_modifier bad_modifiers require_ finite_positive equip modify wear
    settle resolve apply new_round offers_of fill_offers make_offer complete validate_choice step
    step_combat step_reward step_players step_member heeded walked processed move move_with_cover
    collect_pickups apply_defaults apply_reward_selection due_defaults defaults commit sync_magazine
    sync_equipment magazine_capacity unit_direction shuffle next
runs = refl

still_rewarding : is_stage reward rewarding ≡ true
unfolding start_reward choose_reward world_remove_player remove_player announce emit_reward_update
    sort valid_stats validate bad_modifier bad_modifiers require_ finite_positive equip modify wear
    settle resolve apply new_round offers_of fill_offers make_offer complete validate_choice step
    step_combat step_reward step_players step_member heeded walked processed move move_with_cover
    collect_pickups apply_defaults apply_reward_selection due_defaults defaults commit sync_magazine
    sync_equipment magazine_capacity unit_direction shuffle next
still_rewarding = refl

rewards_never_panic_example : (v : World ℕ) × (step 633 rewarding ≡ some v)
rewards_never_panic_example =
    rewards_never_panic history cleared rewarding 633 refl
      (((omega arith, (omega arith, tt)), omega arith), (tt, (tt, (tt, tt))))
      (or_cleared-some (calls history cleared) runs) still_rewarding

-- Nobody chose in time, so that the tick takes the default and the next stage can come.
defaults_taken : is_stage preparing_next_stage (or_cleared (step 633 rewarding)) ≡ true
unfolding start_reward choose_reward world_remove_player remove_player announce emit_reward_update
    sort valid_stats validate bad_modifier bad_modifiers require_ finite_positive equip modify wear
    settle resolve apply new_round offers_of fill_offers make_offer complete validate_choice step
    step_combat step_reward step_players step_member heeded walked processed move move_with_cover
    collect_pickups apply_defaults apply_reward_selection due_defaults defaults commit sync_magazine
    sync_equipment magazine_capacity unit_direction shuffle next
defaults_taken = refl
