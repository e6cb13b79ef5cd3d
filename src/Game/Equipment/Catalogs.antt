-- ===== src/Game/Equipment/Catalogs.antt =====
-- catalog.go: what a catalogue that was accepted holds.
use the_return_of_the_odysse.Base.{
  ℕ, ◌<◌, ◌≡◌, refl, ap, sym, subst, ◌∙◌, ◌⊎◌, inl, inr, false, ◌||◌, Option, none, some, List, [],
  ◌∷◌, ◌++◌, arith, ◌==◌, length, Bool-cases,
}
use the_return_of_the_odysse.Base.Floats.{Float64}
use the_return_of_the_odysse.Base.Maps.{lookup, insert, lookup-insert}
use the_return_of_the_odysse.Base.Counting.{count, count-append}
use the_return_of_the_odysse.Base.Sorting.{sort, Sorted, sort-Sorted, count-sort}
use the_return_of_the_odysse.Base.Results.{ok, passes, ok_parts}
use the_return_of_the_odysse.Game.Equipment.{
  Definition, Catalog, Text, cleaned, is_in, has_key, validate, fill, new_catalog,
}

module _ {F : Type 0} ⦃f : Float64 F⦄ where
  -- The number `v` names no item, or one that is valid, under its own ID, listed once.
  abbrev pub Listed : Catalog F → ℕ → Type 0
  Listed c v =
      ((lookup v c.items ≡ none) × (count v c.ids ≡ 0))
      ⊎ ((d : Definition F) × (lookup v c.items ≡ some d)
          × (d.id ≡ v)
          × (validate d ≡ ok tt)
          × (count v c.ids ≡ 1))

  in-none : (found : Option (Definition F)) → is_in found ≡ false → found ≡ none
  in-none none h = refl
  in-none (some d) h = cc

  -- A number that names nothing is not in the list.
  none-count : (c : Catalog F) (v : ℕ) → Listed c v → lookup v c.items ≡ none → count v c.ids ≡ 0
  none-count c v (inl (e, z)) h = z
  none-count c v (inr (d, e, named, valid, once)) h = cc

  insert-Listed :
      (c : Catalog F) (d : Definition F) (v : ℕ)
      → Listed c v
      → validate d ≡ ok tt
      → is_in (lookup d.id c.items) ≡ false
      → Listed (record c { items = insert d.id d c.items; ids = c.ids ++ d.id ∷ [] }) v
  insert-Listed c d v l good fresh =
      let counted = count-append v c.ids (d.id ∷ []) in
      let found = lookup-insert d.id v d c.items in
      elim (Bool-cases (d.id == v)) [
        | inl e ↦
            let ids : d.id ≡ v = ground arith in
            let absent =
              ap (λ i. lookup i c.items) (sym ids) ∙ in-none (lookup d.id c.items) fresh in
            let none_yet = none-count c v l absent in inr (d, ground arith, ids, good, ground arith)
        | inr e ↦ elim l [
          | inl (absent, z) ↦ inl (ground arith, ground arith)
          | inr (x, there, named, valid, once) ↦ inr (x, ground arith, named, valid, ground arith)
        ]
      ]

  fill-Listed :
      (ds : List (Definition F)) (c c' : Catalog F) (seen : List Text) (v : ℕ)
      → fill ds c seen ≡ ok c'
      → Listed c v
      → Listed c' v × (c'.version ≡ c.version)
  unfolding fill
  fill-Listed [] c c' seen v h l =
      let e : c ≡ c' = ground arith in
      (subst (λ x. Listed x v) e l, ap (λ (x : Catalog F). x.version) (sym e))
  fill-Listed (source ∷ rest) c c' seen v h l =
      let d = cleaned source in
      let (u, valid, h1) = ok_parts (validate d) _ h in
      let (fresh, h2) = passes (is_in (lookup d.id c.items)) _ _ h1 in
      let (new_key, h3) = passes (has_key d.key seen) _ _ h2 in
      fill-Listed rest (record c { items = insert d.id d c.items; ids = c.ids ++ d.id ∷ [] }) c'
        (d.key ∷ seen) v h3 (insert-Listed c d v l valid fresh)

  -- A catalogue that `NewCatalog` accepts keeps the version it was given, which is not 0. Its IDs are
  -- sorted; a number is in them exactly if it names an item, then once, and that item is valid and
  -- has the number as its ID.
  pub new_catalog-Listed :
      (version : ℕ) (definitions : List (Definition F)) (c : Catalog F) (v : ℕ)
      → new_catalog version definitions ≡ ok c
      → Listed c v × Sorted 0 c.ids × (c.version ≡ version) × (0 < version)
  unfolding new_catalog
  new_catalog-Listed version definitions c v h =
      let (sizes, h1) = passes (version == 0 || length definitions == 0) _ _ h in
      let bare : Catalog F = record { version = version; items = []; ids = [] } in
      let (c0, filled, h2) = ok_parts (fill definitions bare []) _ h1 in
      let (l, same) = fill-Listed definitions bare c0 [] v filled (inl (refl, refl)) in
      let e : record c0 { ids = sort c0.ids } ≡ c = ground arith in
      let sorted : Sorted 0 (record c0 { ids = sort c0.ids }).ids = sort-Sorted c0.ids in
      let counted = count-sort v c0.ids in
      let l' : Listed (record c0 { ids = sort c0.ids }) v = elim l [
        | inl (absent, z) ↦ inl (absent, counted ∙ z)
        | inr (x, there, named, valid, once) ↦ inr (x, there, named, valid, counted ∙ once)
      ] in
      (
        subst (λ x. Listed x v) e l',
        subst (λ (x : Catalog F). Sorted 0 x.ids) e sorted,
        ap (λ (x : Catalog F). x.version) (sym e) ∙ same,
        ground arith,
      )
