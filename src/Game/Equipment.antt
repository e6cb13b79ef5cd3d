-- ===== src/Game/Equipment.antt =====
-- server/internal/game/equipment/catalog.go: the equipment data. A Go string is the list of its code
-- points. The JSON decoder is not modelled: `new_catalog` starts from the decoded definitions. An
-- error is told apart only by what its callers can: `unknown_equipment` and the rest; `panics` is a nil
-- pointer.
pub mod Catalogs
pub mod Tests
use the_return_of_the_odysse.Base.{
  ℕ, zero, suc, ◌+◌, ◌≤◌, Bool, true, false, not, ◌&&◌, ◌||◌, Option, none, some, List, [], ◌∷◌,
  ltb, leb, ◌==◌, if◌then◌else◌, length, ◌++◌,
}
use the_return_of_the_odysse.Base.Floats.{Float64, zero_f, odd_f}
use the_return_of_the_odysse.Base.Maps.{lookup, insert}
use the_return_of_the_odysse.Base.Sorting.{sort}
use the_return_of_the_odysse.Base.Results.{Result, ok, err, ◌>>=◌, ◌>>◌, reject_if}

abbrev pub Text : Type 0
Text = List ℕ

-- `Slot`, `Stat` and `Operation` are strings: any other text is the last constructor.
pub data Slot : Type 0 where
  weapon relic potion other_slot : Slot

pub data Stat : Type 0 where
  attack defense max_health move_speed attack_speed other_stat : Stat

pub data Operation : Type 0 where
  adds multiplies other_operation : Operation

pub data Error : Type 0 where
  unknown_equipment invalid_loadout invalid_stats no_potion invalid_health : Error
  invalid_catalog invalid_definition duplicate_id duplicate_key panics : Error

pub record Modifier (F : Type 0) : Type 0 where
  pub stat : Stat
  pub operation : Operation
  pub value : F

pub record Definition (F : Type 0) : Type 0 where
  pub id : ℕ
  pub key : Text
  pub name : Text
  pub description : Text
  pub slot : Slot
  pub modifiers : List (Modifier F)
  pub heal : F
  pub magazine_bonus : ℕ

pub record Catalog (F : Type 0) : Type 0 where
  pub version : ℕ
  pub items : List (ℕ × Definition F)
  pub ids : List ℕ

-- `unicode.IsSpace`
abbrev pub is_space : ℕ → Bool
is_space c =
    c == 32
    || (leb 9 c && leb c 13)
    || c == 0x85
    || c == 0xa0
    || c == 0x1680
    || (leb 0x2000 c && leb c 0x200a)
    || c == 0x2028
    || c == 0x2029
    || c == 0x202f
    || c == 0x205f
    || c == 0x3000

pub trim_left : Text → Text
trim_left [] = []
trim_left (c ∷ cs) = if is_space c then trim_left cs else c ∷ cs

pub trim_right : Text → Text
trim_right [] = []
trim_right (c ∷ cs) =
    let rest = trim_right cs in if is_space c && length rest == 0 then [] else c ∷ rest

-- `strings.TrimSpace`
pub trim_space : Text → Text
unfolding trim_left trim_right
trim_space t = trim_right (trim_left t)

abbrev pub same_text : Text → Text → Bool
same_text [] [] = true
same_text (x ∷ xs) (y ∷ ys) = x == y && same_text xs ys
same_text _ _ = false

-- `keys[definition.Key]`
abbrev pub has_key : Text → List Text → Bool
has_key k [] = false
has_key k (t ∷ ts) = same_text k t || has_key k ts

abbrev pub same_slot : Slot → Slot → Bool
same_slot weapon weapon = true
same_slot relic relic = true
same_slot potion potion = true
same_slot _ _ = false

abbrev pub known_stat : Stat → Bool
known_stat other_stat = false
known_stat _ = true

module _ {F : Type 0} ⦃f : Float64 F⦄ where
  open f use {lit, lt, le, same, abs}

  -- `finitePositive`
  unfoldable pub finite_positive : F → Bool
  finite_positive v = not (odd_f v) && lt zero_f v && le v (lit 1_000_000 0)

  -- `Modifier.validate`: whether it is refused.
  unfoldable pub bad_modifier : Modifier F → Bool
  bad_modifier m =
      not (known_stat m.stat)
      || odd_f m.value
      || lt (lit 1_000_000 0) (abs m.value)
      || elim m.operation [ adds ↦ false | multiplies ↦ le m.value zero_f | other_operation ↦ true ]

  unfoldable pub bad_modifiers : List (Modifier F) → Bool
  unfolding bad_modifier
  bad_modifiers [] = false
  bad_modifiers (m ∷ ms) = bad_modifier m || bad_modifiers ms

  -- The `switch` on the slot in `Definition.validate`.
  abbrev pub bad_slot : Slot → List (Modifier F) → F → Bool
  bad_slot weapon ms heal = length ms == 0 || not (same heal zero_f)
  bad_slot relic ms heal = length ms == 0 || not (same heal zero_f)
  bad_slot potion ms heal = not (length ms == 0) || not (finite_positive heal)
  bad_slot other_slot ms heal = true

  -- `Definition.validate`
  unfoldable pub validate : Definition F → Result Error (Unit {0})
  unfolding bad_modifiers
  validate d = do
    reject_if (ltb 108 d.magazine_bonus || (same_slot d.slot potion && not (d.magazine_bonus == 0)))
        invalid_definition
    reject_if (d.id == 0 || length d.key == 0 || length d.name == 0) invalid_definition
    reject_if (bad_slot d.slot d.modifiers d.heal) invalid_definition
    reject_if (bad_modifiers d.modifiers) invalid_definition

  -- The copy of a definition that the catalogue keeps.
  pub cleaned : Definition F → Definition F
  unfolding trim_space
  cleaned d = record d {
    key = trim_space d.key;
    name = trim_space d.name;
    description = trim_space d.description;
  }

  abbrev pub is_in : Option (Definition F) → Bool
  is_in none = false
  is_in (some d) = true

  -- The loop of `NewCatalog`; the keys seen so far are a list.
  pub fill : List (Definition F) → Catalog F → List Text → Result Error (Catalog F)
  unfolding cleaned
  fill [] c seen = ok c
  fill (source ∷ rest) c seen =
      let d = cleaned source in
      validate d
      >> (reject_if (is_in (lookup d.id c.items)) duplicate_id
          >> (reject_if (has_key d.key seen) duplicate_key
              >> fill rest (record c { items = insert d.id d c.items; ids = c.ids ++ d.id ∷ [] })
                  (d.key ∷ seen)))

  -- `NewCatalog`
  unfoldable pub new_catalog : ℕ → List (Definition F) → Result Error (Catalog F)
  unfolding fill
  new_catalog version definitions = do
    reject_if (version == 0 || length definitions == 0) invalid_catalog
    c ← fill definitions (record { version = version; items = []; ids = [] }) []
    ok (record c { ids = sort c.ids })

  -- `Require`; `Lookup` is `lookup id c.items`.
  unfoldable pub require_ : Catalog F → ℕ → Result Error (Definition F)
  require_ c id = elim (lookup id c.items) [ none ↦ err unknown_equipment | some d ↦ ok d ]
