-- ===== src/Room/Actor/Bounds.antt =====
-- room.go: the generations in the map of members and in the queue of inputs.
use the_return_of_the_odysse.Base.{ℕ, ◌≡◌, ◌≤◌, some, List, [], ◌∷◌, ◌++◌, arith}
use the_return_of_the_odysse.Base.Maps.{lookup, insert, erase}
use the_return_of_the_odysse.Room.{Game, Movement, Binding, Room}

abbrev pub Bound : ℕ → List (ℕ × Binding) → Type 0
Bound n [] = Unit
Bound n (entry ∷ rest) = ((entry.1).generation ≤ n) × Bound n rest

-- The queued inputs are no newer than `n`.
abbrev pub Waits : {g : Game} → ℕ → List (Movement g) → Type 0
Waits n [] = Unit
Waits n (m ∷ ms) = (m.generation ≤ n) × Waits n ms

pub record Dated {g : Game} (r : Room g) : Type 0 where
  pub waits : Waits r.generation r.inputs
  pub bound : Bound r.generation r.members

pub Bound-insert :
    (n key : ℕ) (b : Binding) (ms : List (ℕ × Binding))
    → Bound n ms
    → b.generation ≤ n
    → Bound n (insert key b ms)
Bound-insert n key b [] h le = (le, tt)
Bound-insert n key b (entry ∷ rest) h le = ground (arith, Bound-insert n key b rest h.1)

pub Bound-erase : (n key : ℕ) (ms : List (ℕ × Binding)) → Bound n ms → Bound n (erase key ms)
Bound-erase n key [] h = tt
Bound-erase n key (entry ∷ rest) h = ground (arith, Bound-erase n key rest h.1)

pub Bound-grows : (n m : ℕ) (ms : List (ℕ × Binding)) → Bound n ms → n ≤ m → Bound m ms
Bound-grows n m [] h le = tt
Bound-grows n m (entry ∷ rest) h le = (omega (arith, h.0), Bound-grows n m rest h.1 le)

pub lookup-Bound :
    (n key : ℕ) (b : Binding) (ms : List (ℕ × Binding))
    → Bound n ms
    → lookup key ms ≡ some b
    → b.generation ≤ n
lookup-Bound n key b [] h e = cc
lookup-Bound n key b (entry ∷ rest) h e = ground (arith, lookup-Bound n key b rest h.1)

pub Waits-grows : {g : Game} (n m : ℕ) (ms : List (Movement g)) → Waits n ms → n ≤ m → Waits m ms
Waits-grows n m [] h le = tt
Waits-grows n m (x ∷ xs) h le = (omega (arith, h.0), Waits-grows n m xs h.1 le)

pub Waits-snoc :
    {g : Game} (n : ℕ) (m : Movement g) (ms : List (Movement g))
    → Waits n ms
    → m.generation ≤ n
    → Waits n (ms ++ m ∷ [])
Waits-snoc n m [] h le = (le, tt)
Waits-snoc n m (x ∷ xs) h le = (h.0, Waits-snoc n m xs h.1 le)
