-- ===== src/Game/Reward.antt =====
-- server/internal/game/reward/round.go: the private offers of a reward round. A `*Round` is an
-- `Option Round`, `none` for nil; its `address` is the pointer that `Selection.owner` compares.
-- The map `offers` is an association list. `seed` is the bit pattern that `uint64(seed)` gives.
-- A method that changes the round returns the new one. An index out of range panics in Go: such a
-- result is `none`.
pub mod Offers
pub mod Opening
pub mod Choice
pub mod Defaults
mod Tests
use Prim.Native.Nat.{bit_xor}
use the_return_of_the_odysse.Base.{
  ℕ, zero, suc, ◌+◌, ◌-◌, ◌*◌, ◌^◌, Bool, true, false, not, ◌&&◌, ◌||◌, Option, none, some, List,
  [], ◌∷◌, map, ltb, leb, ◌==◌, if◌then◌else◌, length, take,
}
use the_return_of_the_odysse.Base.Words.{u64}
use the_return_of_the_odysse.Base.Maps.{lookup, insert, erase}
use the_return_of_the_odysse.Base.Counting.{contains}
use the_return_of_the_odysse.Base.Sorting.{sort}
use the_return_of_the_odysse.Base.Results.{Result, ok, err, ◌>>=◌, ◌>>◌, reject_if}
use the_return_of_the_odysse.Game.Random.{shuffle}

abbrev pub max_options : ℕ
max_options = 3

pub data Error : Type 0 where
  invalid_round unknown_player choice_not_offered choice_already_made choice_expired : Error

pub record Offer : Type 0 where
  pub player_id : ℕ
  pub equipment_ids : List ℕ
  pub deadline_tick : ℕ
  pub selected_id : ℕ
  pub defaulted : Bool

abbrev pub Offers : Type 0
Offers = List (ℕ × Offer)

pub record Round : Type 0 where
  pub address : ℕ
  pub stage_index : ℕ
  pub seed : ℕ
  pub deadline : ℕ
  pub offers : Offers

-- `owner` is the address of a round.
pub record Selection : Type 0 where
  pub owner : ℕ
  pub player_id : ℕ
  pub equipment_id : ℕ
  pub defaulted : Bool

-- The loop over the sorted player IDs: a zero, or the same as the one before.
abbrev pub bad_players : Option ℕ → List ℕ → Bool
bad_players before [] = false
bad_players before (id ∷ rest) =
    id == 0 || elim before [ none ↦ false | some last ↦ id == last ] || bad_players (some id) rest

-- The generator's state for one player.
pub player_state : ℕ → ℕ → ℕ → ℕ
player_state seed player stage_index =
    bit_xor (bit_xor seed (u64 (player * 0x9e37_79b9_7f4a_7c15)))
      (u64 (stage_index * 0xbf58_476d_1ce4_e5b9))

-- The offer that `NewRound` makes to one player.
unfoldable pub make_offer : ℕ → ℕ → ℕ → List ℕ → ℕ → ℕ → Offer
unfolding player_state
make_offer stage_index seed deadline ids option_count player = record {
  player_id = player;
  equipment_ids = take option_count (shuffle (player_state seed player stage_index) ids);
  deadline_tick = deadline;
  selected_id = 0;
  defaulted = false;
}

-- The loop of `NewRound` over the sorted players.
unfoldable pub fill_offers : (ℕ → Offer) → List ℕ → Offers → Offers
fill_offers offer [] made = made
fill_offers offer (player ∷ rest) made = fill_offers offer rest (insert player (offer player) made)

-- `NewRound`; `ids` is `catalog.IDs()`, and `address` that of the new round.
unfoldable pub new_round : ℕ → ℕ → ℕ → ℕ → ℕ → List ℕ → List ℕ → ℕ → Result Error Round
new_round address stage_index seed opened duration players ids option_count = do
  reject_if
      (stage_index == 0
        || duration == 0
        || ltb (2 ^ 64 - 1 - duration) opened
        || length players == 0
        || ltb option_count 1
        || ltb max_options option_count)
      invalid_round
  reject_if (ltb (length ids) option_count) invalid_round
  reject_if (bad_players none (sort players)) invalid_round
  ok (record {
    address = address;
    stage_index = stage_index;
    seed = seed;
    deadline = opened + duration;
    offers =
        fill_offers (make_offer stage_index seed (opened + duration) ids option_count)
          (sort players) [];
  })

-- The offers for the sorted keys `ks`.
abbrev pub collect : List ℕ → Offers → List Offer
collect [] offers = []
collect (k ∷ ks) offers = elim (lookup k offers) [
  | none ↦ collect ks offers
  | some offer ↦ offer ∷ collect ks offers
]

abbrev pub keys : Offers → List ℕ
keys [] = []
keys (entry ∷ rest) = entry.0 ∷ keys rest

-- `Offers`
unfoldable pub offers_of : Option Round → List Offer
offers_of none = []
offers_of (some r) = collect (sort (keys r.offers)) r.offers

-- `Offer`
pub offer_of : Option Round → ℕ → Option Offer
offer_of none player = none
offer_of (some r) player = lookup player r.offers

abbrev pub or_unknown : Option Offer → Result Error Offer
or_unknown none = err unknown_player
or_unknown (some offer) = ok offer

-- `ValidateChoice`
unfoldable pub validate_choice : Option Round → ℕ → ℕ → ℕ → Result Error Selection
validate_choice none player equipment tick = err invalid_round
validate_choice (some r) player equipment tick = do
  offer ← or_unknown (lookup player r.offers)
  reject_if (not (offer.selected_id == 0)) choice_already_made
  reject_if (ltb offer.deadline_tick tick) choice_expired
  reject_if (not (contains equipment offer.equipment_ids)) choice_not_offered
  ok (record { owner = r.address; player_id = player; equipment_id = equipment; defaulted = false })

-- `EquipmentIDs[0]`
abbrev pub first_id : Offer → Option ℕ
first_id offer = elim offer.equipment_ids [ [] ↦ none | id ∷ _ ↦ some id ]

-- The selection for an offer that is still open.
abbrev pub default_of : ℕ → Offer → ℕ → Selection
default_of address offer id = record {
  owner = address;
  player_id = offer.player_id;
  equipment_id = id;
  defaulted = true;
}

-- The loop of `DueDefaults`.
unfoldable pub defaults : ℕ → List Offer → Option (List Selection)
defaults address [] = some []
defaults address (offer ∷ rest) =
    let more = defaults address rest in
    if offer.selected_id == 0
    then elim (first_id offer) [
      | none ↦ none
      | some id ↦ elim more [ none ↦ none | some ss ↦ some (default_of address offer id ∷ ss) ]
    ]
    else more

-- `DueDefaults`
unfoldable pub due_defaults : Option Round → ℕ → Option (List Selection)
unfolding defaults
due_defaults none tick = some []
due_defaults (some r) tick =
    if leb tick r.deadline then some [] else defaults r.address (offers_of (some r))

-- Whether the selection is not among the options, or is a default other than the first of them.
abbrev pub not_offered : Offer → Selection → Bool
not_offered offer s =
    not (contains s.equipment_id offer.equipment_ids)
    || (s.defaulted && elim (first_id offer) [ none ↦ true | some id ↦ not (s.equipment_id == id) ])

-- `Commit`
unfoldable pub commit : Option Round → Selection → Result Error Round
commit none s = err invalid_round
commit (some r) s = do
  reject_if (not (s.owner == r.address) || s.player_id == 0 || s.equipment_id == 0) invalid_round
  offer ← or_unknown (lookup s.player_id r.offers)
  reject_if (not (offer.selected_id == 0)) choice_already_made
  reject_if (not_offered offer s) choice_not_offered
  ok (record r {
    offers =
        insert s.player_id (record offer { selected_id = s.equipment_id; defaulted = s.defaulted })
          r.offers;
  })

abbrev pub all_selected : Offers → Bool
all_selected [] = true
all_selected (entry ∷ rest) = if (entry.1).selected_id == 0 then false else all_selected rest

-- `Complete`
unfoldable pub complete : Option Round → Bool
complete none = false
complete (some r) = if length r.offers == 0 then false else all_selected r.offers

-- `RemovePlayer`
unfoldable pub remove_player : Option Round → ℕ → Option Round × Bool
remove_player none player = (none, false)
remove_player (some r) player = elim (lookup player r.offers) [
  | none ↦ (some r, false)
  | some _ ↦ (some (record r { offers = erase player r.offers }), true)
]
