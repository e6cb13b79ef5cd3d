-- ===== src/Lobby/History.antt =====
-- matchmaker.go: what a history of calls does with the players.
use text.Mathlib.Text.{◌==◌ as str_eq}
use text.Mathlib.TextEquality.{eq_iff}
use the_return_of_the_odysse.Base.{
  ℕ, suc, ◌+◌, ◌<◌, ◌≡◌, refl, subst, ◌∙◌, Bool, true, false, some, List, [], ◌∷◌, ◌++◌, arith,
  if◌then◌else◌, length, length-append, length-map, length-take, take, drop, take-append-drop, All,
  All-append,
}
use the_return_of_the_odysse.Lobby.{
  PlayerId, Matchmaker, Reply, no_match, match_of, failed, panics, new_matchmaker, enqueue, cancel,
}
use the_return_of_the_odysse.Lobby.Invariant.{Inv, new_matchmaker-Inv}
use the_return_of_the_odysse.Lobby.Refinement.{
  view, contains, leave, queue_enqueue, queue_cancel, enqueue-queue, cancel-queue,
}

pub data Call : Type 0 where
  enters leaves : PlayerId → Call

pub data Event : Type 0 where
  joined left : PlayerId → Event
  matched : List PlayerId → Event

abbrev pub enter_events : PlayerId → Reply → List Event
enter_events p no_match = joined p ∷ []
enter_events p (match_of ps) = joined p ∷ matched ps ∷ []
enter_events p (failed e) = []
enter_events p panics = []

abbrev pub leave_events : PlayerId → Bool → List Event
leave_events p true = left p ∷ []
leave_events p false = []

pub step : Call → Matchmaker → Matchmaker × List Event
step (enters p) m = let (m', reply) = enqueue p m in (m', enter_events p reply)
step (leaves p) m = let (m', done) = cancel p m in (m', leave_events p done)

unfoldable pub run : List Call → Matchmaker → Matchmaker × List Event
unfolding step
run [] m = (m, [])
run (c ∷ cs) m = let (m', seen) = step c m in let (last, more) = run cs m' in (last, seen ++ more)

abbrev pub count : PlayerId → List PlayerId → ℕ
count p [] = 0
count p (q ∷ qs) = if str_eq q p then suc (count p qs) else count p qs

-- How often a player joined, and how often the player was matched or left.
abbrev pub joins : PlayerId → List Event → ℕ
joins p [] = 0
joins p (joined q ∷ es) = count p (q ∷ []) + joins p es
joins p (_ ∷ es) = joins p es

abbrev pub departs : PlayerId → List Event → ℕ
departs p [] = 0
departs p (left q ∷ es) = count p (q ∷ []) + departs p es
departs p (matched qs ∷ es) = count p qs + departs p es
departs p (joined q ∷ es) = departs p es

-- Every match has `n` players.
abbrev pub IsFull : ℕ → Event → Type 0
IsFull n (matched ps) = length ps ≡ n
IsFull n _ = Unit

count-append : (p : PlayerId) (xs ys : List PlayerId) → count p (xs ++ ys) ≡ count p xs + count p ys
count-append p [] ys = omega arith
count-append p (x ∷ xs) ys = ground (arith, count-append p xs ys)

joins-append : (p : PlayerId) (xs ys : List Event) → joins p (xs ++ ys) ≡ joins p xs + joins p ys
joins-append p [] ys = omega arith
joins-append p (joined q ∷ xs) ys = omega (arith, joins-append p xs ys)
joins-append p (left q ∷ xs) ys = joins-append p xs ys
joins-append p (matched qs ∷ xs) ys = joins-append p xs ys

departs-append :
    (p : PlayerId) (xs ys : List Event) → departs p (xs ++ ys) ≡ departs p xs + departs p ys
departs-append p [] ys = omega arith
departs-append p (joined q ∷ xs) ys = departs-append p xs ys
departs-append p (left q ∷ xs) ys = omega (arith, departs-append p xs ys)
departs-append p (matched qs ∷ xs) ys = omega (arith, departs-append p xs ys)

count-leave :
    (p q : PlayerId) (qs : List PlayerId)
    → contains q qs ≡ true
    → count p qs ≡ count p (q ∷ []) + count p (leave q qs)
count-leave p q [] h = cc
count-leave p q (r ∷ qs) h = ground (arith, count-leave p q qs, eq_iff r q, eq_iff r p, eq_iff q p)

-- One call of the plain queue keeps the books, and forms full matches.
enter_books :
    (n : ℕ) (p q : PlayerId) (qs : List PlayerId)
    → length qs < n
    → let r = queue_enqueue n q qs in
      (joins p (enter_events q r.1) + count p qs ≡ departs p (enter_events q r.1) + count p r.0)
      × All (IsFull n) (enter_events q r.1)
enter_books n p q qs short = ground (
  arith,
  count-append p qs (q ∷ []),
  count-append p (take n (qs ++ q ∷ [])) (drop n (qs ++ q ∷ [])),
  take-append-drop n (qs ++ q ∷ []),
  length-take n (qs ++ q ∷ []),
  length-append qs (q ∷ []),
)

leave_books :
    (n : ℕ) (p q : PlayerId) (qs : List PlayerId)
    → let r = queue_cancel q qs in
      (joins p (leave_events q r.1) + count p qs ≡ departs p (leave_events q r.1) + count p r.0)
      × All (IsFull n) (leave_events q r.1)
leave_books n p q qs = ground (arith, count-leave p q qs)

-- What a call or a history may do to the matchmaker.
abbrev Books : ℕ → PlayerId → Matchmaker → Matchmaker × List Event → Type 0
Books n p m r =
    (joins p r.1 + count p (view m) ≡ departs p r.1 + count p (view r.0))
    × All (IsFull n) r.1
    × (r.0.players_per_match ≡ n)
    × Inv r.0

length-view : (m : Matchmaker) → length (view m) ≡ length m.waiting
length-view m = length-map m.waiting (λ e. e.player)

step-Books :
    (p : PlayerId) (c : Call) (m : Matchmaker) → Inv m → Books m.players_per_match p m (step c m)
unfolding step
step-Books p (enters q) m v =
    let (queue, reply, same, v') = enqueue-queue q m v in
    let (sums, full) =
      enter_books m.players_per_match p q (view m) (omega (arith, length-view m, v.short)) in
    rw (queue, reply) (sums, full, same, v')
step-Books p (leaves q) m v =
    let (queue, reply, same, v') = cancel-queue q m v in
    let (sums, full) = leave_books m.players_per_match p q (view m) in
    rw (queue, reply) (sums, full, same, v')

run-Books :
    (p : PlayerId) (cs : List Call) (m : Matchmaker)
    → Inv m
    → Books m.players_per_match p m (run cs m)
unfolding run
run-Books p [] m v = (refl, tt, refl, v)
run-Books p (c ∷ cs) m v =
    let (sums, full, same, v') = step-Books p c m v in
    let (m', seen) = step c m in
    let (sums', full', same', v'') = run-Books p cs m' v' in
    (
      omega (
        arith,
        sums,
        sums',
        joins-append p seen (run cs m').1,
        departs-append p seen (run cs m').1,
      ),
      All-append (IsFull m.players_per_match) seen (run cs m').1 full
          (subst (λ n. All (IsFull n) (run cs m').1) same full'),
      same' ∙ same,
      v'',
    )

-- In any history of a new matchmaker each player has joined as often as the player was matched, has
-- cancelled or is waiting still, so that nobody is lost or handed to two matches for one request;
-- and every match that was formed has exactly the configured number of players.
pub run-new_books :
    (n : ℕ) (m : Matchmaker) (cs : List Call) (p : PlayerId)
    → new_matchmaker n ≡ some m
    → let (last, seen) = run cs m in
      (joins p seen ≡ departs p seen + count p (view last)) × All (IsFull n) seen
run-new_books n m cs p made =
    let (v, size, nobody) = new_matchmaker-Inv n m made in
    let (sums, full, _, _) = run-Books p cs m v in
    let none_yet : count p (view m) ≡ 0 = rw nobody in
    (omega (arith, sums, none_yet), subst (λ k. All (IsFull k) (run cs m).1) size full)
