-- ===== src/Game/Reward/Defaults.antt =====
-- round.go: the end of a round. After the deadline every open offer gets its first option, and the
-- round is complete.
use mathlib.Core.List.{append_assoc}
use the_return_of_the_odysse.Base.{
  ℕ, suc, ◌≤◌, ◌<◌, ◌≡◌, ◌≢◌, refl, ap, sym, subst, ◌∙◌, ◌⊎◌, inl, inr, true, false, some, List, [],
  ◌∷◌, ◌++◌, arith, leb, ◌==◌, if◌then◌else◌, length, get_or, All, Bool-cases,
}
use the_return_of_the_odysse.Base.Maps.{lookup, insert}
use the_return_of_the_odysse.Base.Counting.{contains}
use the_return_of_the_odysse.Base.Results.{Result, ok, ◌>>=◌}
use the_return_of_the_odysse.Game.Reward.{
  Error, Offer, Offers, Round, Selection, first_id, default_of, not_offered, defaults, due_defaults,
  commit, complete, all_selected,
}
use the_return_of_the_odysse.Game.Reward.Offers.{IsGood, AllGood, Inv, values, offers_of-values}
use the_return_of_the_odysse.Game.Reward.Choice.{marked, commit-fits, marked-Inv}

-- Commit each selection in turn.
pub commit_all : Round → List Selection → Result Error Round
commit_all r [] = ok r
commit_all r (s ∷ ss) = commit (some r) s >>= λ r'. commit_all r' ss

-- An offer that nobody decided takes its first option by default; a decided one stays.
abbrev pub settled : Offer → Offer
settled o =
    if o.selected_id == 0
    then record o { selected_id = get_or o.equipment_ids 0 0; defaulted = true }
    else o

abbrev pub settle_all : Offers → Offers
settle_all [] = []
settle_all (entry ∷ rest) = (entry.0, settled entry.1) ∷ settle_all rest

abbrev Below : ℕ → Offers → Type 0
Below p [] = Unit
Below p (entry ∷ rest) = (entry.0 < p) × Below p rest

IsGood-at :
    (lo d k : ℕ) (o : Offer) (pre rest : Offers)
    → AllGood lo d (pre ++ (k, o) ∷ rest)
    → (lo < k) × Below k pre × IsGood k d o
IsGood-at lo d k o [] rest g = (g.0, tt, g.1)
IsGood-at lo d k o (entry ∷ pre) rest g =
    let (low, below, good) = IsGood-at entry.0 d k o pre rest g.2 in
    (omega arith, (low, below), good)

lookup-at :
    (k : ℕ) (o : Offer) (pre rest : Offers) → Below k pre → lookup k (pre ++ (k, o) ∷ rest) ≡ some o
lookup-at k o [] rest b = ground arith
lookup-at k o (entry ∷ pre) rest b = ground (arith, lookup-at k o pre rest b.1)

insert-at :
    (k : ℕ) (o o' : Offer) (pre rest : Offers)
    → Below k pre
    → insert k o' (pre ++ (k, o) ∷ rest) ≡ pre ++ (k, o') ∷ rest
insert-at k o o' [] rest b = ground arith
insert-at k o o' (entry ∷ pre) rest b = ground (arith, insert-at k o o' pre rest b.1)

pub first_id-good :
    (k d : ℕ) (o : Offer)
    → IsGood k d o
    → (first_id o ≡ some (get_or o.equipment_ids 0 0))
      × (contains (get_or o.equipment_ids 0 0) o.equipment_ids ≡ true)
      × (0 < get_or o.equipment_ids 0 0)
first_id-good k d o g = go o.equipment_ids refl g.some_option g.real
  where
    go :
        (ids : List ℕ)
        → o.equipment_ids ≡ ids
        → 0 < length ids
        → All (λ id. 0 < id) ids
        → (first_id o ≡ some (get_or o.equipment_ids 0 0))
          × (contains (get_or o.equipment_ids 0 0) o.equipment_ids ≡ true)
          × (0 < get_or o.equipment_ids 0 0)
    go [] e pos real = absurd (omega arith)
    go (id ∷ ids) e pos real = rw e (refl, ground arith, real.0)

abbrev pub default_at : Round → Offer → Selection
default_at q o = default_of q.address o (get_or o.equipment_ids 0 0)

first-offered :
    (address id : ℕ) (o : Offer)
    → first_id o ≡ some id
    → contains id o.equipment_ids ≡ true
    → not_offered o (default_of address o id) ≡ false
first-offered address id o first listed = rw (listed, first) (ground arith)

pub open_step :
    (q : Round) (k : ℕ) (o : Offer)
    → Inv q
    → lookup k q.offers ≡ some o
    → IsGood k q.deadline o
    → o.selected_id ≡ 0
    → commit (some q) (default_at q o) ≡ ok (marked q k o (get_or o.equipment_ids 0 0) true)
open_step q k o v found good undecided =
    let (first, listed, pos) = first_id-good k q.deadline o good in
    let here : lookup o.player_id q.offers ≡ some o =
      ap (λ i. lookup i q.offers) good.owner ∙ found in
    commit-fits q (default_at q o) o v refl here undecided listed
      (first-offered q.address (get_or o.equipment_ids 0 0) o first listed)
    ∙ ap (λ i. ok (marked q i o (get_or o.equipment_ids 0 0) true)) good.owner

-- The round with other offers.
abbrev with_offers : Round → Offers → Round
with_offers r m = record r { offers = m }

-- The defaults of the offers `m`, in a round whose other offers `pre` come before, settle them all.
Settles : Round → Offers → Offers → Type 0
Settles r pre m =
    (ss : List Selection) × (defaults r.address (values m) ≡ some ss)
    × (commit_all (with_offers r (pre ++ m)) ss ≡ ok (with_offers r (pre ++ settle_all m)))

settled-open :
    (o : Offer)
    → o.selected_id ≡ 0
    → settled o ≡ record o { selected_id = get_or o.equipment_ids 0 0; defaulted = true }
settled-open o h = ground arith

settled-taken : (o : Offer) → o.selected_id ≢ 0 → settled o ≡ o
settled-taken o h = ground arith

snoc-eq :
    (pre rest : Offers) (k : ℕ) (o : Offer) → (pre ++ (k, o) ∷ []) ++ rest ≡ pre ++ (k, o) ∷ rest
snoc-eq pre rest k o = append_assoc pre ((k, o) ∷ []) rest

pub defaults-open :
    (address id : ℕ) (o : Offer) (rest : List Offer) (ss : List Selection)
    → o.selected_id ≡ 0
    → first_id o ≡ some id
    → defaults address rest ≡ some ss
    → defaults address (o ∷ rest) ≡ some (default_of address o id ∷ ss)
unfolding defaults
defaults-open address id o rest ss h first more = rw (h, first, more)

pub defaults-taken :
    (address : ℕ) (o : Offer) (rest : List Offer)
    → o.selected_id ≢ 0
    → defaults address (o ∷ rest) ≡ defaults address rest
unfolding defaults
defaults-taken address o rest h = ground arith

-- A settled head: what follows it is settled in the round that has it.
next-Settles :
    (r : Round) (pre rest : Offers) (k : ℕ) (o : Offer)
    → Settles r (pre ++ (k, o) ∷ []) rest
    → (ss : List Selection) × (defaults r.address (values rest) ≡ some ss)
      × (commit_all (with_offers r (pre ++ (k, o) ∷ rest)) ss
          ≡ ok (with_offers r (pre ++ (k, o) ∷ settle_all rest)))
unfolding Settles
next-Settles r pre rest k o (ss, due, run) = (
  ss,
  due,
  ap (λ m. commit_all (with_offers r m) ss) (sym (snoc-eq pre rest k o))
      ∙ run
      ∙ ap (λ m. ok (with_offers r m)) (snoc-eq pre (settle_all rest) k o),
)

Settles-open :
    (r : Round) (pre rest : Offers) (k : ℕ) (o : Offer)
    → Inv (with_offers r (pre ++ (k, o) ∷ rest))
    → o.selected_id ≡ 0
    → (Inv (with_offers r ((pre ++ (k, settled o) ∷ []) ++ rest))
        → Settles r (pre ++ (k, settled o) ∷ []) rest)
    → Settles r pre ((k, o) ∷ rest)
unfolding Settles commit_all
Settles-open r pre rest k o v undecided more =
    let (low, below, good) = IsGood-at 0 r.deadline k o pre rest v.offers_good in
    let q = with_offers r (pre ++ (k, o) ∷ rest) in
    let id = get_or o.equipment_ids 0 0 in
    let (first, listed, pos) = first_id-good k r.deadline o good in
    let found = lookup-at k o pre rest below in
    let now : insert k (record o { selected_id = id; defaulted = true }) q.offers
        ≡ pre ++ (k, settled o) ∷ rest =
      insert-at k o _ pre rest below
      ∙ ap (λ p. pre ++ (k, p) ∷ rest) (sym (settled-open o undecided)) in
    let inv : Inv (with_offers r ((pre ++ (k, settled o) ∷ []) ++ rest)) =
      subst (λ m. Inv (with_offers r m)) (now ∙ sym (snoc-eq pre rest k (settled o)))
        (marked-Inv q k id o true v found listed) in
    let (ss, due, run) = next-Settles r pre rest k (settled o) (more inv) in
    (
      default_of r.address o id ∷ ss,
      defaults-open r.address id o (values rest) ss undecided first due,
      ap (λ x. x >>= λ r'. commit_all r' ss) (open_step q k o v found good undecided)
          ∙ ap (λ m. commit_all (with_offers r m) ss) now
          ∙ run,
    )

Settles-taken :
    (r : Round) (pre rest : Offers) (k : ℕ) (o : Offer)
    → Inv (with_offers r (pre ++ (k, o) ∷ rest))
    → o.selected_id ≢ 0
    → (Inv (with_offers r ((pre ++ (k, o) ∷ []) ++ rest)) → Settles r (pre ++ (k, o) ∷ []) rest)
    → Settles r pre ((k, o) ∷ rest)
unfolding Settles
Settles-taken r pre rest k o v decided more =
    let inv = subst (λ m. Inv (with_offers r m)) (sym (snoc-eq pre rest k o)) v in
    let (ss, due, run) = next-Settles r pre rest k o (more inv) in
    (
      ss,
      defaults-taken r.address o (values rest) decided ∙ due,
      run
          ∙ ap (λ p. ok (with_offers r (pre ++ (k, p) ∷ settle_all rest)))
              (sym (settled-taken o decided)),
    )

all-Settles : (r : Round) (pre m : Offers) → Inv (with_offers r (pre ++ m)) → Settles r pre m
unfolding Settles commit_all defaults
all-Settles r pre [] v = ([], refl, refl)
all-Settles r pre ((k, o) ∷ rest) v = elim (Bool-cases (o.selected_id == 0)) [
  | inl e ↦
      Settles-open r pre rest k o v (ground arith)
        (λ inv. all-Settles r (pre ++ (k, settled o) ∷ []) rest inv)
  | inr e ↦
      Settles-taken r pre rest k o v (ground arith)
        (λ inv. all-Settles r (pre ++ (k, o) ∷ []) rest inv)
]

settled-selected : (k d : ℕ) (o : Offer) → IsGood k d o → (settled o).selected_id ≢ 0
settled-selected k d o g = let (first, listed, pos) = first_id-good k d o g in ground arith

all_settled : (lo d : ℕ) (m : Offers) → AllGood lo d m → all_selected (settle_all m) ≡ true
all_settled lo d [] g = refl
all_settled lo d ((k, o) ∷ rest) g =
    ground (arith, settled-selected k d o g.1, all_settled k d rest g.2)

length-settle_all : (m : Offers) → length (settle_all m) ≡ length m
length-settle_all [] = refl
length-settle_all (entry ∷ rest) = ap suc (length-settle_all rest)

complete-settled :
    (r : Round) (m : Offers)
    → Inv r
    → r.offers ≡ m
    → 0 < length m
    → complete (some (with_offers r (settle_all m))) ≡ true
unfolding complete
complete-settled r m v e some_offer =
    let all_ = all_settled 0 r.deadline m (subst (AllGood 0 r.deadline) e v.offers_good) in
    let size = length-settle_all m in ground arith

-- The commits of the selections that are due succeed and end the round.
abbrev pub Ends : Round → ℕ → Type 0
Ends r tick =
    (ss : List Selection) × (r' : Round) × (due_defaults (some r) tick ≡ some ss)
    × (commit_all r ss ≡ ok r')
    × (r'.offers ≡ settle_all r.offers)
    × (complete (some r') ≡ true)

late-Ends : (r : Round) (tick : ℕ) → Inv r → 0 < length r.offers → r.deadline < tick → Ends r tick
unfolding due_defaults Settles
late-Ends r tick v some_offer late =
    let (ss, due, run) = all-Settles r [] r.offers v in
    let late_test : leb tick r.deadline ≡ false = ground arith in
    (
      ss,
      with_offers r (settle_all r.offers),
      rw (late_test, offers_of-values r v, due),
      run,
      refl,
      complete-settled r r.offers v refl some_offer,
    )

-- Up to the deadline no default is due. After it, for a round with offers, `DueDefaults` never
-- reads past the end of an offer's options, and the commits of all its selections, one after the
-- other, succeed: every open offer then has its first option by default, every decided offer is as
-- it was, and the round is complete.
pub defaults_complete :
    (r : Round) (tick : ℕ)
    → Inv r
    → 0 < length r.offers
    → ((tick ≤ r.deadline) × (due_defaults (some r) tick ≡ some []))
      ⊎ ((r.deadline < tick) × Ends r tick)
unfolding due_defaults
defaults_complete r tick v some_offer = elim (Bool-cases (leb tick r.deadline)) [
  | inl e ↦ inl (ground arith, rw e)
  | inr e ↦ inr (ground arith, late-Ends r tick v some_offer (ground arith))
]
