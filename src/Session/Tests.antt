-- ===== src/Session/Tests.antt =====
-- The theorems on sessions at concrete inputs.
use mathlib.Core.List.{Memᴰ}
use the_return_of_the_odysse.Base.{◌≡◌, refl, ◌⊎◌, true, false, List, [], ◌∷◌}
use the_return_of_the_odysse.Session.{
  State, connected, lobby, matching, in_room, closed, reward_choice, player_input, ping, Session,
  new, accept, transition, bind_room, assign_identity, reason_ok, invalid_state,
}
use the_return_of_the_odysse.Session.Matrix.{Legal, accept-matrix}
use the_return_of_the_odysse.Session.Graph.{Followed, transition-arrow}
use the_return_of_the_odysse.Session.History.{
  Call, enters, binds, assigns, run, apply, closed_for_good, input-needs_match,
}

accept-matrix_example :
    ((accept new reward_choice ≡ (true, reason_ok)) × Legal reward_choice connected)
    ⊎ ((accept new reward_choice ≡ (false, invalid_state)) × ¬ Legal reward_choice connected)
unfolding new
accept-matrix_example = accept-matrix new reward_choice

transition-arrow_example :
    ((transition lobby new ≡ (record new { state = lobby }, true)) × Followed connected lobby)
    ⊎ ((transition lobby new ≡ (new, false)) × ¬ Followed connected lobby)
unfolding new
transition-arrow_example = transition-arrow new lobby

abbrev life : List Call
life = assigns 1 7 ∷ enters lobby ∷ enters matching ∷ binds 3 ∷ enters in_room ∷ []

life_plays : accept (run life new) player_input ≡ (true, reason_ok)
unfolding run apply accept transition bind_room assign_identity new
life_plays = refl

input-needs_match_example : Memᴰ (enters matching) life ⊎ Memᴰ (enters State.disconnected) life
input-needs_match_example = input-needs_match life life_plays

abbrev ended : Session
ended = record { state = closed; session_id = 1; player_id = 7; room_id = 0 }

closed_for_good_example :
    ((run life ended).state ≡ closed) × (accept (run life ended) ping ≡ (false, invalid_state))
closed_for_good_example = closed_for_good ended life ping refl
