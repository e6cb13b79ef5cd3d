-- ===== src/Game/Reward/Choice.antt =====
-- round.go: a player's choice, and leaving.
use the_return_of_the_odysse.Base.{
  ℕ, ◌<◌, ◌≡◌, refl, subst, ◌⊎◌, inl, inr, Bool, true, false, not, ◌||◌, Option, none, some, List,
  [], ◌∷◌, arith, ltb, ◌==◌, All, Bool-cases,
}
use the_return_of_the_odysse.Base.Maps.{lookup, insert, lookup-insert}
use the_return_of_the_odysse.Base.Counting.{contains}
use the_return_of_the_odysse.Base.Results.{ok, err, passes, ok_parts}
use the_return_of_the_odysse.Game.Reward.{
  choice_already_made, Offer, Round, Selection, or_unknown, validate_choice, not_offered, commit,
  offer_of,
}
use the_return_of_the_odysse.Game.Reward.Offers.{Inv, lookup-IsGood, insert-AllGood}

abbrev pub choice : Round → ℕ → ℕ → Selection
choice r player equipment = record {
  owner = r.address;
  player_id = player;
  equipment_id = equipment;
  defaulted = false;
}

pub contains-pos : (v : ℕ) (xs : List ℕ) → All (λ id. 0 < id) xs → contains v xs ≡ true → 0 < v
contains-pos v [] real h = cc
contains-pos v (x ∷ xs) real h = ground (arith, contains-pos v xs real.1)

-- The round after a commit.
abbrev pub marked : Round → ℕ → Offer → ℕ → Bool → Round
marked r player o equipment by_default = record r {
  offers = insert player (record o { selected_id = equipment; defaulted = by_default }) r.offers;
}

-- A selection of the round itself, for an offer that is open, goes through.
pub commit-fits :
    (r : Round) (s : Selection) (o : Offer)
    → Inv r
    → s.owner ≡ r.address
    → lookup s.player_id r.offers ≡ some o
    → o.selected_id ≡ 0
    → contains s.equipment_id o.equipment_ids ≡ true
    → not_offered o s ≡ false
    → commit (some r) s ≡ ok (marked r s.player_id o s.equipment_id s.defaulted)
unfolding commit
commit-fits r s o v owner found undecided listed offered =
    let (low, good) = lookup-IsGood 0 r.deadline s.player_id o r.offers v.offers_good found in
    let real = contains-pos s.equipment_id o.equipment_ids good.real listed in
    let guard_ : (not (s.owner == r.address) || s.player_id == 0 || s.equipment_id == 0) ≡ false =
      ground arith in
    let open_ : not (o.selected_id == 0) ≡ false = ground arith in
    rw (guard_, found, open_, offered)

pub marked-Inv :
    (r : Round) (player equipment : ℕ) (o : Offer) (by_default : Bool)
    → Inv r
    → lookup player r.offers ≡ some o
    → contains equipment o.equipment_ids ≡ true
    → Inv (marked r player o equipment by_default)
marked-Inv r player equipment o by_default v found listed =
    let (low, good) = lookup-IsGood 0 r.deadline player o r.offers v.offers_good found in
    record {
      offers_good = insert-AllGood 0 r.deadline player o _ r.offers v.offers_good found (record {
        owner = good.owner;
        due = good.due;
        some_option = good.some_option;
        real = good.real;
        selected = inr listed;
      });
      deadline_word = v.deadline_word;
    }

or_unknown-ok : (found : Option Offer) (o : Offer) → or_unknown found ≡ ok o → found ≡ some o
or_unknown-ok none o h = cc
or_unknown-ok (some p) o h = ground arith

pub validated :
    (r : Round) (player equipment tick : ℕ) (s : Selection)
    → validate_choice (some r) player equipment tick ≡ ok s
    → (o : Offer) × (lookup player r.offers ≡ some o)
      × (o.selected_id ≡ 0)
      × (contains equipment o.equipment_ids ≡ true)
      × (choice r player equipment ≡ s)
unfolding validate_choice
validated r player equipment tick s h =
    let (o, found, h1) = ok_parts (or_unknown (lookup player r.offers)) _ h in
    let (undecided, h2) = passes (not (o.selected_id == 0)) _ _ h1 in
    let (timely, h3) = passes (ltb o.deadline_tick tick) _ _ h2 in
    let (listed, h4) = passes (not (contains equipment o.equipment_ids)) _ _ h3 in
    (o, or_unknown-ok (lookup player r.offers) o found, ground arith, ground arith, ground arith)

-- The round `r'` that a choice leaves behind: the player's offer, that of `other`, and the next
-- choice of the player.
abbrev pub Chosen : Round → ℕ → ℕ → ℕ → ℕ → ℕ → Offer → Round → Type 0
Chosen r player equipment other again later o r' =
    (offer_of (some r') player ≡ some (record o { selected_id = equipment; defaulted = false }))
    × ((other ≡ player) ⊎ (offer_of (some r') other ≡ offer_of (some r) other))
    × Inv r'
    × (validate_choice (some r') player again later ≡ err choice_already_made)

marked-Chosen :
    (r : Round) (player equipment other again later : ℕ) (o : Offer)
    → Inv r
    → lookup player r.offers ≡ some o
    → contains equipment o.equipment_ids ≡ true
    → Chosen r player equipment other again later o (marked r player o equipment false)
unfolding validate_choice offer_of
marked-Chosen r player equipment other again later o v here listed =
    let (low, good) = lookup-IsGood 0 r.deadline player o r.offers v.offers_good here in
    let real = contains-pos equipment o.equipment_ids good.real listed in
    let o' : Offer = record o { selected_id = equipment; defaulted = false } in
    let now : lookup player (insert player o' r.offers) ≡ some o' =
      rw (lookup-insert player player) (ground arith) in
    (
      now,
      elim (Bool-cases (other == player)) [
        | inl e ↦ inl (ground arith)
        | inr e ↦ inr (rw (lookup-insert player other) (ground arith))
      ],
      marked-Inv r player equipment o false v here listed,
      rw (now, validate_choice) (ground arith),
    )

-- What `ValidateChoice` accepts, `Commit` carries out: the player's offer then holds the item as a
-- choice of the player's own, the offers of all others are as before, the invariant holds, and any
-- further choice of that player, at any tick, is refused as already made.
pub choice_commits :
    (r : Round) (player equipment tick other again later : ℕ) (s : Selection)
    → Inv r
    → validate_choice (some r) player equipment tick ≡ ok s
    → (o : Offer) × (r' : Round) × (offer_of (some r) player ≡ some o)
      × (commit (some r) s ≡ ok r')
      × Chosen r player equipment other again later o r'
unfolding offer_of
choice_commits r player equipment tick other again later s v h =
    let (o, here, undecided, listed, same) = validated r player equipment tick s h in
    let offered : not_offered o (choice r player equipment) ≡ false = ground arith in
    (
      o,
      marked r player o equipment false,
      here,
      subst (λ q. commit (some r) q ≡ ok (marked r player o equipment false)) same
          (commit-fits r (choice r player equipment) o v refl here undecided listed offered),
      marked-Chosen r player equipment other again later o v here listed,
    )
