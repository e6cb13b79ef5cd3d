-- ===== src/Game/Loadout/Effects.antt =====
-- loadout.go: what equipping an item and drinking a potion change, and what they leave.
use the_return_of_the_odysse.Base.{
  ℕ, ◌≡◌, ◌≢◌, refl, ap, sym, subst, ◌∙◌, inl, inr, true, not, ◌||◌, some, arith, ◌==◌, ◌^◌, ◌-◌,
  if◌then◌else◌, Bool-cases, Option-cases,
}
use the_return_of_the_odysse.Base.Floats.{Float64, zero_f, one_f, odd_f}
use the_return_of_the_odysse.Base.Maps.{lookup}
use the_return_of_the_odysse.Base.Results.{ok, err, Result-cases, ok_parts, passes}
use the_return_of_the_odysse.Game.Entity.{CombatStats, valid_stats}
use the_return_of_the_odysse.Game.Equipment.{
  no_potion, Slot, weapon, relic, potion, other_slot, Definition, Catalog, validate, require_,
  finite_positive, same_slot,
}
use the_return_of_the_odysse.Game.Loadout.{
  Loadout, put_on, equip, wear, settle, resolve, apply, use_potion,
}

-- The slot of the item holds its ID, and the others are as before.
abbrev pub Placed : Slot → ℕ → Loadout → Loadout → Type 0
Placed weapon id l l' =
    (l'.weapon_id ≡ id) × (l'.relic_id ≡ l.relic_id) × (l'.potion_id ≡ l.potion_id)
Placed relic id l l' =
    (l'.weapon_id ≡ l.weapon_id) × (l'.relic_id ≡ id) × (l'.potion_id ≡ l.potion_id)
Placed potion id l l' =
    (l'.weapon_id ≡ l.weapon_id) × (l'.relic_id ≡ l.relic_id) × (l'.potion_id ≡ id)
Placed other_slot id l l' = ⊥

put_on-Placed : (s : Slot) (id : ℕ) (l l' : Loadout) → put_on s id l ≡ ok l' → Placed s id l l'
put_on-Placed weapon id l l' h = ground arith
put_on-Placed relic id l l' h = ground arith
put_on-Placed potion id l l' h = ground arith
put_on-Placed other_slot id l l' h = ground arith

is_potion : (s : Slot) → same_slot s potion ≡ true → s ≡ potion
is_potion weapon h = cc
is_potion relic h = cc
is_potion potion h = refl
is_potion other_slot h = cc

module _ {F : Type 0} ⦃f : Float64 F⦄ where
  open f use {of_nat, to_nat, add, div, round, fmin, lt, le}

  require-lookup :
      (c : Catalog F) (id : ℕ) (d : Definition F)
      → require_ c id ≡ ok d
      → lookup id c.items ≡ some d
  unfolding require_
  require-lookup c id d h = elim (Option-cases (lookup id c.items)) [
    | inl e ↦ ground arith
    | inr (x, e) ↦ let k : x ≡ d = ground arith in e ∙ ap some k
  ]

  settle-valid :
      (rate : ℕ) (s : CombatStats F) (speed : F) (r : CombatStats F)
      → settle rate (s, speed) ≡ ok r
      → valid_stats r ≡ true
  unfolding settle
  settle-valid rate s speed r h =
      let raw = round (div (of_nat rate) speed) in
      let cooldown = if lt raw one_f then one_f else raw in
      let resolved = record s { attack_cooldown_ticks = to_nat cooldown } in
      let (h0, h1) = passes (not (finite_positive speed)) _ _ h in
      let (h2, h3) = passes (lt (of_nat (2 ^ 32 - 1)) cooldown) _ _ h1 in
      let (h4, h5) = passes (not (valid_stats resolved)) _ _ h3 in
      let k : resolved ≡ r = ground arith in
      let v : valid_stats resolved ≡ true = ground arith in subst (λ x. valid_stats x ≡ true) k v

  pub resolve-valid :
      (base : CombatStats F) (l : Loadout) (c : Catalog F) (rate : ℕ) (r : CombatStats F)
      → resolve base l c rate ≡ ok r
      → valid_stats r ≡ true
  unfolding resolve
  resolve-valid base l c rate r h =
      let start : CombatStats F × F =
        (base, div (of_nat rate) (of_nat base.attack_cooldown_ticks)) in
      let (h0, h1) = passes (not (valid_stats base) || rate == 0) _ _ h in
      let (armed, h2, h3) = ok_parts (wear c weapon l.weapon_id start) _ h1 in
      let (worn, h4, h5) = ok_parts (wear c relic l.relic_id armed) _ h3 in
      settle-valid rate worn.0 worn.1 r h5

  -- When `Apply` succeeds, the item is a valid one of the catalogue; its slot, and no other, holds its
  -- ID; the stats are those of the new loadout, resolved from the base stats alone, and pass
  -- `Valid`; and the health is the lesser of the old one and the new limit.
  pub apply-Placed :
      (base : CombatStats F) (health : F) (l : Loadout) (id : ℕ) (c : Catalog F) (rate : ℕ)
      (l' : Loadout) (s : CombatStats F) (h' : F)
      → apply base health l id c rate ≡ ok (l', s, h')
      → (d : Definition F) × (lookup id c.items ≡ some d)
        × (validate d ≡ ok tt)
        × Placed d.slot d.id l l'
        × (resolve base l' c rate ≡ ok s)
        × (valid_stats s ≡ true)
        × (h' ≡ fmin health s.max_health)
  unfolding apply equip
  apply-Placed base health l id c rate l' s h' h =
      let (d, h0, h1) = ok_parts (require_ c id) _ h in
      let (next, h2, h3) = ok_parts (equip l d) _ h1 in
      let (stats, h4, h5) = ok_parts (resolve base next c rate) _ h3 in
      let (h6, h7) = passes (odd_f health || lt health zero_f) _ _ h5 in
      let (u, valid, put) = ok_parts (validate d) _ h2 in
      let l_same : next ≡ l' = ground arith in
      let s_same : stats ≡ s = ground arith in
      (
        d,
        require-lookup c id d h0,
        valid,
        subst (Placed d.slot d.id l) l_same (put_on-Placed d.slot d.id l next put),
        ap (λ x. resolve base x c rate) (sym l_same) ∙ h4 ∙ ap ok s_same,
        subst (λ x. valid_stats x ≡ true) s_same (resolve-valid base next c rate stats h4),
        ground arith,
      )

  -- When `UsePotion` succeeds, the potion in the slot is consumed: it is a potion of the catalogue and
  -- the one reported, the slot is empty and the other slots are as before, the health is raised by the
  -- potion up to the limit; the stats that the loadout resolves to are unchanged, and a second use
  -- finds no potion.
  pub use_potion-once :
      (l l' : Loadout) (health most h' : F) (c : Catalog F) (id : ℕ)
      → use_potion l health most c ≡ ok (l', h', id)
      → (id ≢ 0)
        × (id ≡ l.potion_id)
        × Placed potion 0 l l'
        × ((d : Definition F) × (lookup id c.items ≡ some d)
            × (d.slot ≡ potion)
            × (h' ≡ fmin most (add health d.heal)))
        × ((base : CombatStats F) (rate : ℕ) → resolve base l' c rate ≡ resolve base l c rate)
        × ((now limit : F) → use_potion l' now limit c ≡ err no_potion)
  unfolding use_potion resolve
  use_potion-once l l' health most h' c id h =
      let (h0, h1) = passes (l.potion_id == 0) _ _ h in
      let (h2, h3) =
        passes (odd_f health || odd_f most || lt health zero_f || le most zero_f || lt most health)
          _ _ h1 in
      elim (Result-cases (require_ c l.potion_id)) [
        | inl (x, e) ↦ ground arith
        | inr (d, e) ↦ elim (Bool-cases (same_slot d.slot potion)) [
          | inl k ↦
              let found = require-lookup c l.potion_id d e in
              let left : record l { potion_id = 0 } ≡ l' = ground arith in
              let id_same : l.potion_id ≡ id = ground arith in
              let healed : h' ≡ fmin most (add health d.heal) = ground arith in
              let full : id ≢ 0 = ground arith in
              (
                full,
                sym id_same,
                subst (Placed potion 0 l) left (refl, refl, refl),
                (
                  d,
                  subst (λ i. lookup i c.items ≡ some d) id_same found,
                  is_potion d.slot k,
                  healed,
                ),
                subst
                    (λ x.
                      (base : CombatStats F) (rate : ℕ)
                      → resolve base x c rate ≡ resolve base l c rate)
                    left (λ base rate. refl),
                subst (λ x. (now limit : F) → use_potion x now limit c ≡ err no_potion) left
                    (λ now limit. refl),
              )
          | inr k ↦ ground arith
        ]
      ]
