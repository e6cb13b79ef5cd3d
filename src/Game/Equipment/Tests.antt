-- ===== src/Game/Equipment/Tests.antt =====
-- catalog.go: a small catalogue.
use the_return_of_the_odysse.Base.{ℕ, ◌<◌, ◌≡◌, refl, [], ◌∷◌}
use the_return_of_the_odysse.Base.Floats.{thousandths}
use the_return_of_the_odysse.Base.Sorting.{sort, Sorted}
use the_return_of_the_odysse.Base.Results.{ok}
use the_return_of_the_odysse.Game.Equipment.{
  Definition, Catalog, weapon, potion, attack, adds, validate, bad_modifier, bad_modifiers,
  trim_left, trim_right, trim_space, cleaned, fill, new_catalog, finite_positive,
}
use the_return_of_the_odysse.Game.Equipment.Catalogs.{Listed, new_catalog-Listed}

abbrev pub bow : Definition ℕ
bow = record {
  id = 5;
  key = 98 ∷ [];
  name = 66 ∷ [];
  description = [];
  slot = weapon;
  modifiers = record { stat = attack; operation = adds; value = 4000 } ∷ [];
  heal = 0;
  magazine_bonus = 6;
}

abbrev pub tonic : Definition ℕ
tonic = record {
  id = 2;
  key = 116 ∷ [];
  name = 84 ∷ [];
  description = [];
  slot = potion;
  modifiers = [];
  heal = 30_000;
  magazine_bonus = 0;
}

abbrev pub shop : Catalog ℕ
shop = record { version = 1; items = (5, bow) ∷ (2, tonic) ∷ []; ids = 2 ∷ 5 ∷ [] }

shop_built : new_catalog 1 (bow ∷ tonic ∷ []) ≡ ok shop
unfolding new_catalog fill validate bad_modifiers bad_modifier cleaned trim_space trim_right
    trim_left sort finite_positive
shop_built = refl

new_catalog-Listed_example : Listed shop 5 × Sorted 0 shop.ids × (shop.version ≡ 1) × (0 < 1)
new_catalog-Listed_example = new_catalog-Listed 1 (bow ∷ tonic ∷ []) shop 5 shop_built
