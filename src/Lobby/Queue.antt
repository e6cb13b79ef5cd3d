-- ===== src/Lobby/Queue.antt =====
-- The waiting list as a list of elements: addresses, players, and the index that must agree.
use text.Mathlib.Text.{◌==◌ as str_eq}
use text.Mathlib.TextEquality.{eq_iff}
use the_return_of_the_odysse.Base.{
  ℕ, suc, ◌≤◌, ◌≡◌, refl, Option, none, some, List, [], ◌∷◌, ◌++◌, arith, if◌then◌else◌,
}
use the_return_of_the_odysse.Lobby.{PlayerId, Element, queued_at, delete, remove}

-- The address of the first element that holds a player.
abbrev pub address_of : PlayerId → List Element → Option ℕ
address_of p [] = none
address_of p (e ∷ es) = if str_eq e.player p then some e.address else address_of p es

-- The list without the first element that holds a player.
abbrev pub without : PlayerId → List Element → List Element
without p [] = []
without p (e ∷ es) = if str_eq e.player p then es else e ∷ without p es

-- Addresses rise along the list, from `lo` and below `hi`.
abbrev pub Rising : ℕ → ℕ → List Element → Type 0
Rising lo hi [] = lo ≤ hi
Rising lo hi (e ∷ es) = (lo ≤ e.address) × Rising (suc e.address) hi es

-- No player stands twice in the list.
abbrev pub Distinct : List Element → Type 0
Distinct [] = Unit
Distinct (e ∷ es) = (address_of e.player es ≡ none) × Distinct es

pub queued_at-delete :
    (p q : PlayerId) (m : List (PlayerId × ℕ))
    → queued_at q (delete p m) ≡ (if str_eq p q then none else queued_at q m)
queued_at-delete p q [] = ground arith
queued_at-delete p q (entry ∷ m) =
    ground (arith, eq_iff entry.0 p, eq_iff entry.0 q, eq_iff p q, queued_at-delete p q m)

pub address_of-snoc :
    (p q : PlayerId) (a : ℕ) (es : List Element)
    → address_of q (es ++ record { address = a; player = p } ∷ [])
      ≡ (elim (address_of q es) [ some b ↦ some b | none ↦ if str_eq p q then some a else none ])
address_of-snoc p q a [] = ground arith
address_of-snoc p q a (e ∷ es) = ground (arith, address_of-snoc p q a es)

pub Rising-snoc :
    (p : PlayerId) (lo hi : ℕ) (es : List Element)
    → Rising lo hi es
    → Rising lo (suc hi) (es ++ record { address = hi; player = p } ∷ [])
Rising-snoc p lo hi [] r = omega arith
Rising-snoc p lo hi (e ∷ es) r = (r.0, Rising-snoc p (suc e.address) hi es r.1)

pub Rising-weaken :
    (lo lo' hi : ℕ) (es : List Element) → lo' ≤ lo → Rising lo hi es → Rising lo' hi es
Rising-weaken lo lo' hi [] le r = omega arith
Rising-weaken lo lo' hi (e ∷ es) le r = (omega arith, r.1)

pub Distinct-snoc :
    (p : PlayerId) (a : ℕ) (es : List Element)
    → address_of p es ≡ none
    → Distinct es
    → Distinct (es ++ record { address = a; player = p } ∷ [])
Distinct-snoc p a [] absent d = (refl, tt)
Distinct-snoc p a (e ∷ es) absent d = (
  ground (arith, address_of-snoc p e.player a es, eq_iff e.player p, eq_iff p e.player),
  Distinct-snoc p a es (ground arith) d.1,
)

-- The address of an element of a rising list is at least its start.
address_of-ge :
    (p : PlayerId) (lo hi a : ℕ) (es : List Element)
    → Rising lo hi es
    → address_of p es ≡ some a
    → lo ≤ a
address_of-ge p lo hi a [] r e = cc
address_of-ge p lo hi a (x ∷ es) r e = ground (arith, address_of-ge p (suc x.address) hi a es r.1)

-- Removing the element that the index points to removes the player.
pub remove-without :
    (p : PlayerId) (lo hi a : ℕ) (es : List Element)
    → Rising lo hi es
    → address_of p es ≡ some a
    → remove a es ≡ without p es
remove-without p lo hi a [] r e = cc
remove-without p lo hi a (x ∷ es) r e = ground (
  arith,
  address_of-ge p (suc x.address) hi a es r.1,
  remove-without p (suc x.address) hi a es r.1,
)

pub Rising-without :
    (p : PlayerId) (lo hi : ℕ) (es : List Element) → Rising lo hi es → Rising lo hi (without p es)
Rising-without p lo hi [] r = r
Rising-without p lo hi (x ∷ es) r =
    ground
      (arith, Rising-without p (suc x.address) hi es r.1, Rising-weaken (suc x.address) lo hi es)

pub address_of-without :
    (p q : PlayerId) (es : List Element)
    → Distinct es
    → address_of q (without p es) ≡ (if str_eq p q then none else address_of q es)
address_of-without p q [] d = ground arith
address_of-without p q (x ∷ es) d =
    ground (arith, eq_iff x.player p, eq_iff x.player q, eq_iff p q, address_of-without p q es d.1)

pub Distinct-without : (p : PlayerId) (es : List Element) → Distinct es → Distinct (without p es)
Distinct-without p [] d = tt
Distinct-without p (x ∷ es) d =
    ground (arith, Distinct-without p es d.1, address_of-without p x.player es d.1)
