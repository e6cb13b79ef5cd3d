-- ===== src/Network/Connection/Order.antt =====
-- server.go: reliable frames reach the socket in the order in which `Send` took them.
use the_return_of_the_odysse.Base.{
  ◌≡◌, refl, ap, sym, true, List, [], ◌∷◌, ◌++◌, arith, All, ◌≡⟨◌⟩◌, ◌∎,
}
use mathlib.Core.List.{append-nil, append_assoc}
use the_return_of_the_odysse.Network.Connection.{
  Bytes, Connection, Output, accepted, sent, Action, step, run, sends, writes_snapshot,
  writes_reliable,
}

-- The frames for which `Send` returned `true`, and those that the writer put on the socket.
abbrev pub taken : List Output → List Bytes
taken [] = []
taken (accepted f ∷ os) = f ∷ taken os
taken (_ ∷ os) = taken os

abbrev pub written : List Output → List Bytes
written [] = []
written (sent f ∷ os) = f ∷ written os
written (_ ∷ os) = written os

taken-append : (xs ys : List Output) → taken (xs ++ ys) ≡ taken xs ++ taken ys
taken-append [] ys = refl
taken-append (accepted f ∷ xs) ys = ap (◌∷◌ f) (taken-append xs ys)
taken-append (_ ∷ xs) ys = taken-append xs ys

pub written-append : (xs ys : List Output) → written (xs ++ ys) ≡ written xs ++ written ys
written-append [] ys = refl
written-append (sent f ∷ xs) ys = ap (◌∷◌ f) (written-append xs ys)
written-append (_ ∷ xs) ys = written-append xs ys

-- The writes of a schedule succeed.
abbrev pub Works : Action → Type 0
Works (writes_snapshot ok) = ok ≡ true
Works (writes_reliable ok) = ok ≡ true
Works _ = Unit

step-order :
    (c : Connection) (a : Action)
    → Works a
    → c.out ++ taken (step c a).1 ≡ written (step c a).1 ++ (step c a).0.out
unfolding step
step-order c (sends frame) w = ground (arith, append-nil c.out)
step-order c (writes_reliable ok) w = ground (arith, append-nil c.out)
step-order c _ w = ground (arith, append-nil c.out)

-- While writes succeed, the reliable frames queued at the start, followed by those that `Send`
-- accepts during any schedule, are exactly those written to the socket followed by those still
-- queued, in the same order: none is lost, doubled or overtaken by another.
pub run-order :
    (c : Connection) (as_ : List Action)
    → All Works as_
    → c.out ++ taken (run c as_).1 ≡ written (run c as_).1 ++ (run c as_).0.out
unfolding run
run-order c [] w = append-nil c.out
run-order c (a ∷ as_) w =
    let (c', seen) = step c a in
    let (last, more) = run c' as_ in
    c.out ++ taken (seen ++ more)
    ≡⟨ ap (◌++◌ c.out) (taken-append seen more) ⟩ c.out ++ (taken seen ++ taken more)
    ≡⟨ sym (append_assoc c.out (taken seen) (taken more)) ⟩ (c.out ++ taken seen) ++ taken more
    ≡⟨ ap (λ xs. xs ++ taken more) (step-order c a w.0) ⟩ (written seen ++ c'.out) ++ taken more
    ≡⟨ append_assoc (written seen) c'.out (taken more) ⟩ written seen ++ (c'.out ++ taken more)
    ≡⟨ ap (◌++◌ (written seen)) (run-order c' as_ w.1) ⟩ written seen ++ (written more ++ last.out)
    ≡⟨ sym (append_assoc (written seen) (written more) last.out) ⟩
      (written seen ++ written more) ++ last.out
    ≡⟨ ap (λ xs. xs ++ last.out) (sym (written-append seen more)) ⟩
      written (seen ++ more) ++ last.out ∎
