-- ===== src/Persistence/Writer/Delivery.antt =====
-- result_writer.go: every accepted envelope ends once, in the order of acceptance.
use the_return_of_the_odysse.Base.{
  ◌≡◌, refl, ap, sym, ◌∙◌, Bool, List, [], ◌∷◌, ◌++◌, arith, ◌≡⟨◌⟩◌, ◌∎,
}
use mathlib.Core.List.{append-nil, append_assoc}
use the_return_of_the_odysse.Persistence.Writer.{
  Phase, idle, finished, trying, waiting, failing, rescuing, Writer, Event, accepted, inserted,
  repeated, kept, lost, Action, submits, works, Outside, work, step, run,
}

-- The envelopes that `Submit` took, and those that the worker is done with.
abbrev pub taken : {E : Type 0} → List (Event E) → List E
taken [] = []
taken (accepted e ∷ es) = e ∷ taken es
taken (_ ∷ es) = taken es

abbrev pub ended : {E : Type 0} → List (Event E) → List E
ended [] = []
ended (inserted e ∷ es) = e ∷ ended es
ended (repeated e ∷ es) = e ∷ ended es
ended (kept e _ _ ∷ es) = e ∷ ended es
ended (lost e _ _ ∷ es) = e ∷ ended es
ended (_ ∷ es) = ended es

pub taken-append : {E : Type 0} (xs ys : List (Event E)) → taken (xs ++ ys) ≡ taken xs ++ taken ys
taken-append [] ys = refl
taken-append (accepted e ∷ xs) ys = ap (◌∷◌ e) (taken-append xs ys)
taken-append (_ ∷ xs) ys = taken-append xs ys

ended-append : {E : Type 0} (xs ys : List (Event E)) → ended (xs ++ ys) ≡ ended xs ++ ended ys
ended-append [] ys = refl
ended-append (inserted e ∷ xs) ys = ap (◌∷◌ e) (ended-append xs ys)
ended-append (repeated e ∷ xs) ys = ap (◌∷◌ e) (ended-append xs ys)
ended-append (kept e _ _ ∷ xs) ys = ap (◌∷◌ e) (ended-append xs ys)
ended-append (lost e _ _ ∷ xs) ys = ap (◌∷◌ e) (ended-append xs ys)
ended-append (_ ∷ xs) ys = ended-append xs ys

-- The envelope in the worker's hands.
abbrev pub in_hand : {E : Type 0} → Phase E → List E
in_hand idle = []
in_hand finished = []
in_hand (trying e _) = e ∷ []
in_hand (waiting e _) = e ∷ []
in_hand (failing e _ _) = e ∷ []
in_hand (rescuing e _ _ _) = e ∷ []

-- What was accepted and is not done with yet, oldest first.
abbrev pub pending : {E : Type 0} → Writer E → List E
pending w = in_hand w.phase ++ w.queue

pub work-order :
    {E : Type 0} (o : Outside) (w : Writer E)
    → (pending w ≡ ended (work o w).1 ++ pending (work o w).0) × (taken (work o w).1 ≡ [])
unfolding work
work-order o w = ground arith

step-order :
    {E : Type 0} (valid : E → Bool) (w : Writer E) (a : Action E)
    → pending w ++ taken (step valid w a).1 ≡ ended (step valid w a).1 ++ pending (step valid w a).0
unfolding step
step-order valid w (submits e) =
    ground (arith, append-nil (pending w), append_assoc (in_hand w.phase) w.queue (e ∷ []))
step-order valid w (works o) =
    let (kept_, none_taken) = work-order o w in rw none_taken (append-nil (pending w) ∙ kept_)
step-order valid w _ = ground (arith, append-nil (pending w))

-- In every interleaving of submissions, the halves of a shutdown and worker steps, whatever the
-- sinks and the clock answer, the envelopes pending at the start followed by those that `Submit`
-- accepts are exactly those the worker is done with, saved, kept in dead-letter storage or reported
-- lost, followed by those still pending, in the same order: none is dropped or handled twice.
pub run-delivers :
    {E : Type 0} (valid : E → Bool) (w : Writer E) (as_ : List (Action E))
    → pending w ++ taken (run valid w as_).1
      ≡ ended (run valid w as_).1 ++ pending (run valid w as_).0
unfolding run
run-delivers valid w [] = append-nil (pending w)
run-delivers valid w (a ∷ as_) =
    let (w', seen) = step valid w a in
    let (last, more) = run valid w' as_ in
    pending w ++ taken (seen ++ more)
    ≡⟨ ap (◌++◌ (pending w)) (taken-append seen more) ⟩ pending w ++ (taken seen ++ taken more)
    ≡⟨ sym (append_assoc (pending w) (taken seen) (taken more)) ⟩
      (pending w ++ taken seen) ++ taken more
    ≡⟨ ap (λ xs. xs ++ taken more) (step-order valid w a) ⟩ (ended seen ++ pending w') ++ taken more
    ≡⟨ append_assoc (ended seen) (pending w') (taken more) ⟩
      ended seen ++ (pending w' ++ taken more)
    ≡⟨ ap (◌++◌ (ended seen)) (run-delivers valid w' as_) ⟩
      ended seen ++ (ended more ++ pending last)
    ≡⟨ sym (append_assoc (ended seen) (ended more) (pending last)) ⟩
      (ended seen ++ ended more) ++ pending last
    ≡⟨ ap (λ xs. xs ++ pending last) (sym (ended-append seen more)) ⟩
      ended (seen ++ more) ++ pending last ∎
