-- ===== src/Game/Loadout/Slots.antt =====
-- loadout.go: the slots of a loadout and the magazine they give.
use the_return_of_the_odysse.Base.{ℕ, ◌≤◌, arith}
use the_return_of_the_odysse.Game.Equipment.{Catalog}
use the_return_of_the_odysse.Game.Loadout.{Loadout, magazine_capacity}

pub magazine_capacity_bounds :
    {F : Type 0} (c : Catalog F) (l : Loadout) (base : ℕ)
    → base ≤ 120
    → (base ≤ magazine_capacity c l base) × (magazine_capacity c l base ≤ 120)
unfolding magazine_capacity
magazine_capacity_bounds c l base h = (omega arith, omega arith)
