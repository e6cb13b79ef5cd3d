-- ===== src/Game/World/Promises/Rounds.antt =====
-- server/internal/game/rewards.go: what `StartReward` opens, and a choice.
use the_return_of_the_odysse.Base.{
  ℕ, ◌+◌, ◌<◌, ◌≡◌, refl, sym, ap, subst, ◌∙◌, inl, inr, Bool, true, false, not, ◌||◌, none, some,
  List, [], ◌∷◌, arith, ◌==◌, ◌^◌, length, min, Bool-cases, All,
}
use the_return_of_the_odysse.Base.Words.{u64}
use the_return_of_the_odysse.Base.Floats.{Float64}
use the_return_of_the_odysse.Base.Maps.{lookup}
use the_return_of_the_odysse.Base.Counting.{contains, count-contains, contains-count}
use the_return_of_the_odysse.Base.Sorting.{sort, count-sort}
use the_return_of_the_odysse.Base.Results.{Result, ok, err, Result-cases, passes, ok_parts}
use the_return_of_the_odysse.Game.Equipment.{Catalog}
use the_return_of_the_odysse.Game.Reward as Reward
use the_return_of_the_odysse.Game.Reward.{
  Offer, Offers, Round, validate_choice, keys, max_options, new_round, offers_of,
}
use the_return_of_the_odysse.Game.Reward.Choice.{
  validated, contains-pos, choice, commit-fits, marked,
}
use the_return_of_the_odysse.Game.Reward.Offers.{lookup-IsGood}
use the_return_of_the_odysse.Game.Reward.Opening.{new_round-opens, Drawn}
use the_return_of_the_odysse.Game.Stage.{stage_clear, reward}
use the_return_of_the_odysse.Game.World.{
  Member, World, Error, ids_of, is_stage, is_set, ordered_ids, with_stage,
}
use the_return_of_the_odysse.Game.World.Ammo.{apply_to}
use the_return_of_the_odysse.Game.World.Rewards.{
  from_round, emit_reward_update, announce, open_reward, refuses_item, refuses_any, round_for,
  start_reward, choose_reward, apply_reward_selection,
}
use the_return_of_the_odysse.Game.World.Promises.{Accepts, Covered, IsReady, committed-Granted}

from_round-ok : {A : Type 0} (r : Result Reward.Error A) (a : A) → from_round r ≡ ok a → r ≡ ok a
from_round-ok (err e) a h = cc
from_round-ok (ok b) a h = ground arith

||-false : (a b : Bool) → (a || b) ≡ false → b ≡ false
||-false a b h = ground arith

-- An ID of the map has a value.
ids_of-lookup :
    {V : Type 0} (m : List (ℕ × V)) (k : ℕ)
    → contains k (ids_of m) ≡ true
    → (v : V) × (lookup k m ≡ some v)
ids_of-lookup [] k h = cc
ids_of-lookup (entry ∷ rest) k h = elim (Bool-cases (entry.0 == k)) [
  | inl e ↦ (entry.1, rw e refl)
  | inr e ↦ let (v, found) = ids_of-lookup rest k (ground arith) in (v, ground arith)
]

-- A key whose offer is found is one of the keys.
lookup-keys :
    (offers : Offers) (p : ℕ) (o : Offer)
    → lookup p offers ≡ some o
    → contains p (keys offers) ≡ true
lookup-keys [] p o h = cc
lookup-keys (entry ∷ rest) p o h = ground (arith, lookup-keys rest p o)

-- Sorting keeps what the list contains.
sort-contains : (v : ℕ) (xs : List ℕ) → contains v (sort xs) ≡ true → contains v xs ≡ true
sort-contains v xs h =
    count-contains v xs (omega (arith, contains-count v (sort xs) h, count-sort v xs))

lookup-Drawn :
    (n : ℕ) (ids : List ℕ) (p : ℕ) (o : Offer) (offers : Offers)
    → All (λ entry. Drawn n ids entry.1) offers
    → lookup p offers ≡ some o
    → Drawn n ids o
lookup-Drawn n ids p o [] drawn h = cc
lookup-Drawn n ids p o (entry ∷ rest) drawn h = elim (Bool-cases (entry.0 == p)) [
  | inl e ↦ let same : entry.1 ≡ o = ground arith in subst (Drawn n ids) same drawn.0
  | inr e ↦ lookup-Drawn n ids p o rest drawn.1 (ground arith)
]

module _ {F : Type 0} ⦃f : Float64 F⦄ where
  abbrev succeeds : World F → Result Error (World F)
  succeeds w = ok w

  -- A choice that `ChooseReward` takes leaves the world ready.
  pub choose_reward-IsReady :
      (player equipment : ℕ) (w w' : World F) (r : Round)
      → IsReady w r
      → choose_reward player equipment w ≡ ok w'
      → (r' : Round) × IsReady w' r'
  unfolding choose_reward
  choose_reward-IsReady player equipment w w' r ready h =
      let (h0, h1) = passes (not (is_stage reward w) || not (is_set w.reward_round)) _ _ h in
      let (s, h2, h3) =
        ok_parts (from_round (validate_choice w.reward_round player equipment w.tick)) _ h1 in
      let chosen : validate_choice (some r) player equipment w.tick ≡ ok s =
        subst (λ x. validate_choice x player equipment w.tick ≡ ok s) ready.round
          (from_round-ok _ s h2) in
      let (o, found, undecided, listed, same) = validated r player equipment w.tick s chosen in
      let (low, good) =
        lookup-IsGood 0 r.deadline player o r.offers (ready.inv).offers_good found in
      let pos = contains-pos equipment o.equipment_ids good.real listed in
      let (w1, granted, ready1) =
        committed-Granted w r (u64 (w.tick + 1)) o (choice r player equipment) ready found undecided
          listed pos
          (commit-fits r (choice r player equipment) o ready.inv refl found undecided listed
            (rw listed refl)) in
      let result : succeeds w1 ≡ ok w' =
        sym granted ∙ ap (λ x. apply_reward_selection x (u64 (w.tick + 1)) w) same ∙ h3 in
      let k : w1 ≡ w' = ground arith in
      (
        marked r player o equipment false,
        subst (λ x. IsReady x (marked r player o equipment false)) k ready1,
      )

  refuses_item-Accepts :
      (c : Catalog F) (ids : List ℕ) (m : Member F) (id : ℕ)
      → refuses_item c ids m ≡ false
      → contains id ids ≡ true
      → Accepts c id m
  refuses_item-Accepts c [] m id fine listed = cc
  refuses_item-Accepts c (x ∷ ids) m id fine listed = elim (Bool-cases (x == id)) [
    | inl e ↦
        let same : x ≡ id = ground arith in
        elim (Result-cases (apply_to c x m)) [
          | inl (n, h) ↦ ground arith
          | inr (y, h) ↦ (y, ap (λ i. apply_to c i m) (sym same) ∙ h)
        ]
    | inr e ↦ elim (Result-cases (apply_to c x m)) [
      | inl (n, h) ↦ ground arith
      | inr (y, h) ↦ refuses_item-Accepts c ids m id (ground arith) (ground arith)
    ]
  ]

  refuses_any-Accepts :
      (c : Catalog F) (ids ps : List ℕ) (players : List (ℕ × Member F)) (p : ℕ) (m : Member F)
      → refuses_any c ids ps players ≡ false
      → contains p ps ≡ true
      → lookup p players ≡ some m
      → refuses_item c ids m ≡ false
  refuses_any-Accepts c ids [] players p m fine listed found = cc
  refuses_any-Accepts c ids (q ∷ ps) players p m fine listed found = elim (Bool-cases (q == p)) [
    | inl e ↦
        let same : q ≡ p = ground arith in
        let here : lookup q players ≡ some m = ap (λ i. lookup i players) same ∙ found in
        let both : (refuses_item c ids m || refuses_any c ids ps players) ≡ false =
          subst
            (λ x.
              (elim x [ none ↦ false | some m ↦ refuses_item c ids m ]
                || refuses_any c ids ps players)
              ≡ false)
            here fine in
        ground arith
    | inr e ↦ refuses_any-Accepts c ids ps players p m (||-false _ _ fine) (ground arith) found
  ]

  announce-rest :
      (os : List Offer) (w : World F)
      → ((announce os w).players ≡ w.players)
        × ((announce os w).reward_round ≡ w.reward_round)
        × ((announce os w).reward_catalog ≡ w.reward_catalog)
  unfolding announce emit_reward_update
  announce-rest [] w = (refl, refl, refl)
  announce-rest (o ∷ os) w = announce-rest os _

  -- The offers of a new round are those of players who can take each of its items.
  opened-Covered :
      (c : Catalog F) (n : ℕ) (offers : Offers) (players : List (ℕ × Member F))
      → refuses_any c c.ids (ordered_ids players) players ≡ false
      → keys offers ≡ sort (ordered_ids players)
      → All (λ entry. Drawn n c.ids entry.1) offers
      → Covered c offers players
  opened-Covered c n offers players fine owners drawn p o found undecided =
      let here = subst (λ ks. contains p ks ≡ true) owners (lookup-keys offers p o found) in
      let listed = sort-contains p (ordered_ids players) here in
      let (m, there) = ids_of-lookup players p (sort-contains p (ids_of players) listed) in
      let takes = refuses_any-Accepts c c.ids (ordered_ids players) players p m fine listed there in
      let own = lookup-Drawn n c.ids p o offers drawn found in
      (
        m,
        there,
        λ id offered. refuses_item-Accepts c c.ids m id takes (
            count-contains id c.ids
              (omega (arith, contains-count id o.equipment_ids offered, own.1 id))),
      )

  -- `StartReward` leaves the world ready for the round.
  pub start_reward-IsReady :
      (address : ℕ) (c : Catalog F) (seed duration : ℕ) (w w' : World F)
      → All (λ id. 0 < id) c.ids
      → duration < 2 ^ 64
      → start_reward address c seed duration w ≡ ok w'
      → (r : Round) × IsReady w' r
  unfolding start_reward
  start_reward-IsReady address c seed duration w w' real short h =
      let (h0, h1) = passes (not (is_stage stage_clear w) || is_set w.reward_round) _ _ h in
      let (h2, h3) = passes (length c.ids == 0) _ _ h1 in
      let (h4, h5) = passes (refuses_any c c.ids (ordered_ids w.players) w.players) _ _ h3 in
      let (r, h6, h7) = ok_parts (from_round (round_for address c seed duration w)) _ h5 in
      let (inv, due, few, owners, rising, drawn) =
        new_round-opens address (w.stage).index seed w.tick duration (ordered_ids w.players) c.ids
          (min max_options (length c.ids)) r short real (from_round-ok _ r h6) in
      let covered =
        opened-Covered c (min max_options (length c.ids)) r.offers w.players h4 owners drawn in
      let opened = with_stage reward (record w { reward_catalog = c; reward_round = some r }) in
      let (players, round, catalog) = announce-rest (offers_of (some r)) opened in
      let k : open_reward c r w ≡ w' = ground arith in
      let after = open_reward c r w in
      let ready : IsReady after r = record {
        round = round;
        inv = inv;
        covered =
            subst (λ x. Covered x r.offers after.players) (sym catalog)
              (subst (Covered c r.offers) (sym players) covered);
      } in
      (r, subst (λ x. IsReady x r) k ready)
