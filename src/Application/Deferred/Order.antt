-- ===== src/Application/Deferred/Order.antt =====
-- deferred_events.go: events keep their order through the release.
use the_return_of_the_odysse.Base.{
  ◌≤◌, ◌≡◌, refl, ap, sym, Bool, true, false, List, [], ◌∷◌, ◌++◌, arith, length, length-append,
  ◌≡⟨◌⟩◌, ◌∎,
}
use mathlib.Core.List.{append-nil, append_assoc}
use the_return_of_the_odysse.Application.Deferred.{
  Frame, max_deferred_events, Sink, Seen, accepted, forwarded, new_sink, passed_on, send, flush,
  release, Call, sends, releases, step, run,
}

abbrev pub taken : List Seen → List Frame
taken [] = []
taken (accepted f ∷ ss) = f ∷ taken ss
taken (_ ∷ ss) = taken ss

abbrev pub passed : List Seen → List Frame
passed [] = []
passed (forwarded f ∷ ss) = f ∷ passed ss
passed (_ ∷ ss) = passed ss

taken-append : (xs ys : List Seen) → taken (xs ++ ys) ≡ taken xs ++ taken ys
taken-append [] ys = refl
taken-append (accepted f ∷ xs) ys = ap (◌∷◌ f) (taken-append xs ys)
taken-append (_ ∷ xs) ys = taken-append xs ys

passed-append : (xs ys : List Seen) → passed (xs ++ ys) ≡ passed xs ++ passed ys
passed-append [] ys = refl
passed-append (forwarded f ∷ xs) ys = ap (◌∷◌ f) (passed-append xs ys)
passed-append (_ ∷ xs) ys = passed-append xs ys

-- The sink behind never refuses a frame.
abbrev pub Accepts : {D : Type 0} → (Frame → D → Bool × D) → Type 0
Accepts {D = D} forward = (frame : Frame) (d : D) → (forward frame d).0 ≡ true

-- A released sink holds nothing back, and never more than its limit is held.
pub record Inv {D : Type 0} (s : Sink D) : Type 0 where
  pub empty : s.released ≡ true → s.pending ≡ []
  pub bounded : length s.pending ≤ max_deferred_events

flush-all :
    {D : Type 0} (forward : Frame → D → Bool × D) (fs : List Frame) (d : D)
    → Accepts forward
    → (passed (flush forward fs d).1 ≡ fs) × (taken (flush forward fs d).1 ≡ [])
unfolding flush
flush-all forward [] d h = (refl, refl)
flush-all forward (f ∷ fs) d h =
    let (all_, none_) = flush-all forward fs (forward f d).1 h in
    rw (h f d) (ap (◌∷◌ f) all_, none_)

passed_on-kept :
    {D : Type 0} (frame : Frame) (answer : Bool × D) (s : Sink D)
    → ((passed_on frame answer s).0.pending ≡ s.pending)
      × ((passed_on frame answer s).0.released ≡ s.released)
passed_on-kept frame (true, d) s = (refl, refl)
passed_on-kept frame (false, d) s = (refl, refl)

passed_on-order :
    {D : Type 0} (frame : Frame) (answer : Bool × D) (s : Sink D)
    → answer.0 ≡ true
    → (taken (passed_on frame answer s).1 ≡ frame ∷ [])
      × (passed (passed_on frame answer s).1 ≡ frame ∷ [])
passed_on-order frame (true, d) s h = (refl, refl)
passed_on-order frame (false, d) s h = cc

step-Inv :
    {D : Type 0} (forward : Frame → D → Bool × D) (s : Sink D) (c : Call)
    → Inv s
    → Inv (step forward s c).0
unfolding step send release
step-Inv forward s (sends frame) v = grind (arith, length-append, passed_on-kept frame)
step-Inv forward s releases v = record { empty = λ e. refl; bounded = omega arith }

step-order :
    {D : Type 0} (forward : Frame → D → Bool × D) (s : Sink D) (c : Call)
    → Accepts forward
    → Inv s
    → s.pending ++ taken (step forward s c).1
      ≡ passed (step forward s c).1 ++ (step forward s c).0.pending
unfolding step send release
step-order forward s (sends frame) h v =
    let empty = v.empty in
    let (got, went) = passed_on-order frame (forward frame s.downstream) s (h frame s.downstream) in
    let (same, _) = passed_on-kept frame (forward frame s.downstream) s in
    ground (arith, append-nil s.pending)
step-order forward s releases h v =
    let (all_, none_) = flush-all forward s.pending s.downstream h in rw (all_, none_) refl

run-Inv :
    {D : Type 0} (forward : Frame → D → Bool × D) (s : Sink D) (cs : List Call)
    → Inv s
    → Inv (run forward s cs).0
unfolding run
run-Inv forward s [] v = v
run-Inv forward s (c ∷ cs) v = run-Inv forward (step forward s c).0 cs (step-Inv forward s c v)

ordered :
    {D : Type 0} (forward : Frame → D → Bool × D) (s : Sink D) (cs : List Call)
    → Accepts forward
    → Inv s
    → s.pending ++ taken (run forward s cs).1
      ≡ passed (run forward s cs).1 ++ (run forward s cs).0.pending
unfolding run
ordered forward s [] h v = append-nil s.pending
ordered forward s (c ∷ cs) h v =
    let (s', seen) = step forward s c in
    let (last, more) = run forward s' cs in
    s.pending ++ taken (seen ++ more)
    ≡⟨ ap (◌++◌ s.pending) (taken-append seen more) ⟩ s.pending ++ (taken seen ++ taken more)
    ≡⟨ sym (append_assoc s.pending (taken seen) (taken more)) ⟩
      (s.pending ++ taken seen) ++ taken more
    ≡⟨ ap (λ xs. xs ++ taken more) (step-order forward s c h v) ⟩
      (passed seen ++ s'.pending) ++ taken more
    ≡⟨ append_assoc (passed seen) s'.pending (taken more) ⟩
      passed seen ++ (s'.pending ++ taken more)
    ≡⟨ ap (◌++◌ (passed seen)) (ordered forward s' cs h (step-Inv forward s c v)) ⟩
      passed seen ++ (passed more ++ last.pending)
    ≡⟨ sym (append_assoc (passed seen) (passed more) last.pending) ⟩
      (passed seen ++ passed more) ++ last.pending
    ≡⟨ ap (λ xs. xs ++ last.pending) (sym (passed-append seen more)) ⟩
      passed (seen ++ more) ++ last.pending ∎

-- While the connection takes everything, in any history of a new sink the frames for which `Send`
-- returned `true` are exactly those passed on followed by those still held back, in the same order:
-- the release neither loses, doubles nor reorders an event. At most 128 are held back, and none
-- after the release.
pub run-in_order :
    {D : Type 0} (forward : Frame → D → Bool × D) (d : D) (cs : List Call)
    → Accepts forward
    → let (last, seen) = run forward (new_sink d) cs in
      (taken seen ≡ passed seen ++ last.pending) × Inv last
unfolding new_sink
run-in_order forward d cs h =
    let v : Inv (new_sink d) = record { empty = λ e. refl; bounded = omega arith } in
    (ordered forward (new_sink d) cs h v, run-Inv forward (new_sink d) cs v)
