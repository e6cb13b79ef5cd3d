-- ===== src/Game/Reward/Offers.antt =====
-- round.go: the invariant of a round, on its map of offers.
use the_return_of_the_odysse.Base.{
  ℕ, ◌^◌, ◌≤◌, ◌<◌, ◌≡◌, refl, ap, ◌∙◌, ◌⊎◌, true, none, some, List, [], ◌∷◌, arith, length, All,
}
use the_return_of_the_odysse.Base.Maps.{lookup, insert, erase}
use the_return_of_the_odysse.Base.Counting.{contains}
use the_return_of_the_odysse.Base.Sorting.{Sorted, sort_of_Sorted}
use the_return_of_the_odysse.Game.Reward.{Offer, Offers, Round, collect, keys, offers_of}

-- An offer to the player `key`: it has options, none of them 0, and what is selected is one of them.
pub record IsGood (key deadline : ℕ) (o : Offer) : Type 0 where
  pub owner : o.player_id ≡ key
  pub due : o.deadline_tick ≡ deadline
  pub some_option : 0 < length o.equipment_ids
  pub real : All (λ id. 0 < id) o.equipment_ids
  pub selected : (o.selected_id ≡ 0) ⊎ (contains o.selected_id o.equipment_ids ≡ true)

-- Keys rise from above `lo`, and each offer is good.
abbrev pub AllGood : ℕ → ℕ → Offers → Type 0
AllGood lo d [] = Unit
AllGood lo d (entry ∷ rest) = (lo < entry.0) × IsGood entry.0 d entry.1 × AllGood entry.0 d rest

pub record Inv (r : Round) : Type 0 where
  pub offers_good : AllGood 0 r.deadline r.offers
  pub deadline_word : r.deadline < 2 ^ 64

pub lookup-low : (lo d k : ℕ) (m : Offers) → AllGood lo d m → k ≤ lo → lookup k m ≡ none
lookup-low lo d k [] g h = refl
lookup-low lo d k (entry ∷ rest) g h = ground (arith, lookup-low entry.0 d k rest g.2)

pub lookup-IsGood :
    (lo d k : ℕ) (o : Offer) (m : Offers)
    → AllGood lo d m
    → lookup k m ≡ some o
    → (lo < k) × IsGood k d o
lookup-IsGood lo d k o [] g h = cc
lookup-IsGood lo d k o (entry ∷ rest) g h = ground (arith, lookup-IsGood entry.0 d k o rest g.2)

pub insert-AllGood :
    (lo d k : ℕ) (o o' : Offer) (m : Offers)
    → AllGood lo d m
    → lookup k m ≡ some o
    → IsGood k d o'
    → AllGood lo d (insert k o' m)
insert-AllGood lo d k o o' [] g h good = cc
insert-AllGood lo d k o o' (entry ∷ rest) g h good =
    ground (arith, insert-AllGood entry.0 d k o o' rest g.2)

AllGood-lower : (lo lo' d : ℕ) (m : Offers) → lo' ≤ lo → AllGood lo d m → AllGood lo' d m
AllGood-lower lo lo' d [] h g = tt
AllGood-lower lo lo' d (entry ∷ rest) h g = (omega arith, g.1, g.2)

pub erase-AllGood : (lo d k : ℕ) (m : Offers) → AllGood lo d m → AllGood lo d (erase k m)
erase-AllGood lo d k [] g = tt
erase-AllGood lo d k (entry ∷ rest) g =
    ground (arith, erase-AllGood entry.0 d k rest g.2, AllGood-lower entry.0 lo d (erase k rest))

abbrev pub values : Offers → List Offer
values [] = []
values (entry ∷ rest) = entry.1 ∷ values rest

keys-Sorted : (lo d : ℕ) (m : Offers) → AllGood lo d m → Sorted lo (keys m)
keys-Sorted lo d [] g = tt
keys-Sorted lo d (entry ∷ rest) g = (omega arith, keys-Sorted entry.0 d rest g.2)

abbrev Over : ℕ → List ℕ → Type 0
Over lo [] = Unit
Over lo (k ∷ ks) = (lo < k) × Over lo ks

keys-Over : (lo d : ℕ) (m : Offers) (low : ℕ) → low ≤ lo → AllGood lo d m → Over low (keys m)
keys-Over lo d [] low h g = tt
keys-Over lo d (entry ∷ rest) low h g =
    (omega arith, keys-Over entry.0 d rest low (omega arith) g.2)

collect-Over :
    (k : ℕ) (o : Offer) (ks : List ℕ) (m : Offers)
    → Over k ks
    → collect ks ((k, o) ∷ m) ≡ collect ks m
collect-Over k o [] m h = refl
collect-Over k o (j ∷ ks) m h = ground (arith, collect-Over k o ks m h.1)

collect-keys : (lo d : ℕ) (m : Offers) → AllGood lo d m → collect (keys m) m ≡ values m
collect-keys lo d [] g = refl
collect-keys lo d (entry ∷ rest) g = ground (
  arith,
  collect-Over entry.0 entry.1 (keys rest) rest
      (keys-Over entry.0 d rest entry.0 (omega arith) g.2),
  collect-keys entry.0 d rest g.2,
)

-- `Offers` lists every offer once, by rising player ID.
pub offers_of-values : (r : Round) → Inv r → offers_of (some r) ≡ values r.offers
unfolding offers_of
offers_of-values r v =
    ap (λ ks. collect ks r.offers)
      (sort_of_Sorted 0 (keys r.offers) (keys-Sorted 0 r.deadline r.offers v.offers_good))
    ∙ collect-keys 0 r.deadline r.offers v.offers_good
