-- ===== src/Network/Connection/Flushing.antt =====
-- server.go: `CloseAfterFlush` and what the writer does after it.
use mathlib.Core.List.{append_assoc}
use the_return_of_the_odysse.Base.{
  ℕ, suc, ◌+◌, ◌≡◌, ◌≢◌, refl, ap, sym, ◌∙◌, ◌⊎◌, inl, inr, Bool, true, false, Option, none, some,
  Bool-cases, Option-cases, List, [], ◌∷◌, ◌++◌, arith, length,
}
use the_return_of_the_odysse.Network.Connection.{
  Bytes, unlocked, Connection, Action, step, run, sends, publishes, flushes, writes_snapshot,
  writes_reliable,
}
use the_return_of_the_odysse.Network.Connection.Order.{written, written-append}

-- The rounds of the writer in a schedule.
abbrev pub rounds : List Action → ℕ
rounds [] = 0
rounds (writes_snapshot ok ∷ as_) = suc (rounds as_)
rounds (writes_reliable ok ∷ as_) = suc (rounds as_)
rounds (_ ∷ as_) = rounds as_

abbrev pub in_slot : Option Bytes → ℕ
in_slot none = 0
in_slot (some f) = 1

abbrev pub not_yet : Bool → ℕ
not_yet true = 0
not_yet false = 1

-- What is left for the writer: the frames, the snapshot and the round in which it returns.
abbrev pub left_over : Connection → ℕ
left_over c = length c.out + in_slot c.snapshot + not_yet c.writer_done

-- A round that the writer can take here and whose write succeeds; it returns only with an empty
-- slot. The other goroutines do what they like, but none that was publishing a snapshot goes on.
abbrev pub Fair : Connection → Action → Type 0
Fair c (writes_snapshot ok) = (ok ≡ true) × (c.writer_done ≡ false) × (c.snapshot ≢ none)
Fair c (writes_reliable ok) =
    (ok ≡ true) × (c.writer_done ≡ false) × ((c.snapshot ≡ none) ⊎ (c.out ≢ []))
Fair c (publishes n) = ⊥
Fair c _ = Unit

abbrev pub AllFair : Connection → List Action → Type 0
AllFair c [] = Unit
AllFair c (a ∷ as_) = Fair c a × AllFair (step c a).0 as_

record IsFlushing (c : Connection) : Type 0 where
  free : c.phase ≡ unlocked
  refuses : c.closed ≡ true
  sealed : c.queue_closed ≡ true
  drained : c.writer_done ≡ true → (c.out ≡ []) × (c.snapshot ≡ none)

step-IsFlushing : (c : Connection) (a : Action) → IsFlushing c → Fair c a → IsFlushing (step c a).0
unfolding step
step-IsFlushing c (sends frame) v h = ground arith
step-IsFlushing c _ v h = ground arith

step-left :
    (c : Connection) (a : Action)
    → IsFlushing c
    → Fair c a
    → (c.out ≡ written (step c a).1 ++ (step c a).0.out)
      × (left_over c ≡ rounds (a ∷ []) + left_over (step c a).0)
unfolding step
step-left c (sends frame) v h = ground arith
step-left c _ v h = ground arith

rounds-cons : (a : Action) (as_ : List Action) → rounds (a ∷ as_) ≡ rounds (a ∷ []) + rounds as_
rounds-cons (writes_snapshot ok) as_ = omega arith
rounds-cons (writes_reliable ok) as_ = omega arith
rounds-cons _ as_ = omega arith

run-left :
    (c : Connection) (as_ : List Action)
    → IsFlushing c
    → AllFair c as_
    → (c.out ≡ written (run c as_).1 ++ (run c as_).0.out)
      × (left_over c ≡ rounds as_ + left_over (run c as_).0)
      × IsFlushing (run c as_).0
unfolding run
run-left c [] v h = (refl, omega arith, v)
run-left c (a ∷ as_) v h =
    let (c', seen) = step c a in
    let (last, more) = run c' as_ in
    let (here, less) = step-left c a v h.0 in
    let (later, less', v') = run-left c' as_ (step-IsFlushing c a v h.0) h.1 in
    (
      here
          ∙ ap (◌++◌ (written seen)) later
          ∙ sym (append_assoc (written seen) (written more) last.out)
          ∙ ap (λ xs. xs ++ last.out) (sym (written-append seen more)),
      omega (arith, less, less', rounds-cons a as_),
      v',
    )

flush_step :
    (c : Connection)
    → c.phase ≡ unlocked
    → step c flushes ≡ (record c { closed = true; queue_closed = true }, [])
unfolding step
flush_step c p = ground arith

flushed-IsFlushing :
    (c : Connection)
    → c.phase ≡ unlocked
    → c.writer_done ≡ false
    → IsFlushing (record c { closed = true; queue_closed = true })
flushed-IsFlushing c p d = ground arith

-- Nothing is left for the writer, which has returned, or it can take a round.
abbrev pub IsOverOrGoing : Connection → Type 0
IsOverOrGoing c =
    ((c.out ≡ []) × (c.snapshot ≡ none) × (c.writer_done ≡ true))
    ⊎ ((c.writer_done ≡ false) × ((a : Action) × Fair c a × (rounds (a ∷ []) ≡ 1)))

goes_on : (c : Connection) → IsFlushing c → IsOverOrGoing c
goes_on c v = elim (Bool-cases c.writer_done) [
  | inl e ↦ let (o, s) = v.drained e in inl (o, s, e)
  | inr e ↦ elim (Option-cases c.snapshot) [
    | inl n ↦ inr (e, (writes_reliable true, (refl, e, inl n), refl))
    | inr (f, n) ↦ inr (e, (writes_snapshot true, (refl, e, λ h. ground arith), refl))
  ]
]

-- After `CloseAfterFlush`, whatever the choices of the writer between its two queues and whatever
-- `Send`, `Close` and new calls of `SendSnapshot` come between: while the writes succeed and no
-- `SendSnapshot` is still in its loop, the reliable frames that were queued are those written
-- followed by those still queued, in order; each round of the writer takes one off what is left for
-- it, at the start one for each frame, one for a waiting snapshot and one to return; and as long as
-- the writer has not returned it can take a round. Once it has returned both queues are empty.
pub run-flushes :
    (c : Connection) (as_ : List Action)
    → c.phase ≡ unlocked
    → c.writer_done ≡ false
    → AllFair (record c { closed = true; queue_closed = true }) as_
    → let (last, seen) = run c (flushes ∷ as_) in
      (c.out ≡ written seen ++ last.out)
      × (length c.out + in_slot c.snapshot + 1 ≡ rounds as_ + left_over last)
      × IsOverOrGoing last
      × (last.closed ≡ true)
unfolding run
run-flushes c as_ p d h =
    let closing : Connection = record c { closed = true; queue_closed = true } in
    let (order, less, v) = run-left closing as_ (flushed-IsFlushing c p d) h in
    let all_left : left_over c ≡ length c.out + in_slot c.snapshot + 1 = ground arith in
    rw (flush_step c p) (order, omega (arith, less, all_left), goes_on _ v, v.refuses)
