-- ===== src/Lobby/Invariant.antt =====
-- The matchmaker's invariant, and the steps that keep it.
use text.Mathlib.TextEquality.{eq_iff}
use text.Mathlib.TextPositions.{eq_refl}
use the_return_of_the_odysse.Base.{
  ℕ, ◌<◌, ◌≡◌, ap, sym, ◌∙◌, none, some, List, [], ◌∷◌, arith, length,
}
use the_return_of_the_odysse.Lobby.{
  PlayerId, Element, Matchmaker, queued_at, delete, remove, push_back, new_matchmaker,
}
use the_return_of_the_odysse.Lobby.Queue.{
  address_of, without, Rising, Distinct, queued_at-delete, address_of-snoc, Rising-snoc,
  Distinct-snoc, remove-without, Rising-without, address_of-without, Distinct-without,
}

-- The index and the list agree: every player stands at most once, and the index gives exactly the
-- address of the element that holds the player. Fresh addresses stand at the end.
pub record Linked (m : Matchmaker) : Type 0 where
  pub agree : (p : PlayerId) → queued_at p m.queued ≡ address_of p m.waiting
  pub rising : Rising 0 m.next_address m.waiting
  pub distinct : Distinct m.waiting

-- Between two calls fewer players wait than a match takes.
pub record Inv (m : Matchmaker) : Type 0 where
  pub linked : Linked m
  pub short : length m.waiting < m.players_per_match

pub push_back-Linked :
    (p : PlayerId) (m : Matchmaker)
    → queued_at p m.queued ≡ none
    → Linked m
    → Linked (push_back p m)
unfolding push_back
push_back-Linked p m absent v = record {
  agree = λ q.
      ground
        (arith, v.agree p, v.agree q, address_of-snoc p q m.next_address m.waiting, eq_iff p q);
  rising = Rising-snoc p 0 m.next_address m.waiting v.rising;
  distinct = Distinct-snoc p m.next_address m.waiting (ground (arith, v.agree p)) v.distinct;
}

-- A player found in the index, taken out of both.
abbrev pub take_out : PlayerId → ℕ → Matchmaker → Matchmaker
take_out p a m = record m { queued = delete p m.queued; waiting = remove a m.waiting }

pub take_out-Linked :
    (p : PlayerId) (a : ℕ) (m : Matchmaker)
    → queued_at p m.queued ≡ some a
    → Linked m
    → Linked (take_out p a m) × (remove a m.waiting ≡ without p m.waiting)
take_out-Linked p a m found v =
    let gone : remove a m.waiting ≡ without p m.waiting =
      remove-without p 0 m.next_address a m.waiting v.rising (sym (v.agree p) ∙ found) in
    (
      record {
        agree = λ q. rw gone (
            ground (
              arith,
              v.agree q,
              queued_at-delete p q m.queued,
              address_of-without p q m.waiting v.distinct,
            ));
        rising = rw gone (Rising-without p 0 m.next_address m.waiting v.rising);
        distinct = rw gone (Distinct-without p m.waiting v.distinct);
      },
      gone,
    )

-- The front of the queue taken off, as one round of the loop in `Enqueue` does.
pub pop_front-Linked :
    (e : Element) (es : List Element) (m : Matchmaker)
    → m.waiting ≡ e ∷ es
    → Linked m
    → Linked (take_out e.player e.address m) × (remove e.address m.waiting ≡ es)
pop_front-Linked e es m w v =
    let found : queued_at e.player m.queued ≡ some e.address =
      v.agree e.player ∙ rw w (rw (eq_refl e.player)) in
    ((take_out-Linked e.player e.address m found v).0, rw w (ground arith))

new-fields :
    (n : ℕ) (m : Matchmaker)
    → new_matchmaker n ≡ some m
    → (m.waiting ≡ []) × (m.queued ≡ []) × (m.players_per_match ≡ n) × (0 < n)
unfolding new_matchmaker
new-fields n m e = ground arith

pub new_matchmaker-Inv :
    (n : ℕ) (m : Matchmaker)
    → new_matchmaker n ≡ some m
    → Inv m × (m.players_per_match ≡ n) × (m.waiting ≡ [])
new_matchmaker-Inv n m e =
    let (nobody, unindexed, size, positive) = new-fields n m e in
    (
      record {
        linked = record {
          agree = λ q. ap (queued_at q) unindexed ∙ sym (ap (address_of q) nobody);
          rising = rw nobody (omega arith);
          distinct = rw nobody tt;
        };
        short = omega (arith, ap length nobody);
      },
      size,
      nobody,
    )
