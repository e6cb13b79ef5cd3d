-- ===== src/Lobby/Refinement.antt =====
-- The matchmaker against a plain first-in first-out queue of player names.
use text.Mathlib.Text.{◌==◌ as str_eq}
use mathlib.Core.List.{append_assoc, append-nil, map-append}
use the_return_of_the_odysse.Base.{
  ℕ, zero, suc, ◌≤◌, ◌<◌, ◌≡◌, refl, ap, sym, subst, ◌∙◌, inl, inr, Bool, true, false, none, some,
  List, [], ◌∷◌, ◌++◌, map, arith, if◌then◌else◌, ltb, length, length-append, length-map,
  length-drop, Bool-cases, Option-cases, take, drop,
}
use the_return_of_the_odysse.Lobby.{
  PlayerId, Element, Matchmaker, invalid_player_id, player_already_queued, Reply, no_match,
  match_of, failed, queued_at, remove, push_back, form_match, enqueue, cancel,
}
use the_return_of_the_odysse.Lobby.Queue.{address_of, without}
use the_return_of_the_odysse.Lobby.Invariant.{
  Linked, Inv, push_back-Linked, take_out, take_out-Linked, pop_front-Linked,
}

-- The specification: a list of names, oldest first.
abbrev pub contains : PlayerId → List PlayerId → Bool
contains p [] = false
contains p (q ∷ qs) = if str_eq q p then true else contains p qs

abbrev pub leave : PlayerId → List PlayerId → List PlayerId
leave p [] = []
leave p (q ∷ qs) = if str_eq q p then qs else q ∷ leave p qs

-- With `n` players to a match, the names of all that wait once one more has come.
abbrev pub settle : ℕ → List PlayerId → List PlayerId × Reply
settle n qs = if ltb (length qs) n then (qs, no_match) else (drop n qs, match_of (take n qs))

abbrev pub queue_enqueue : ℕ → PlayerId → List PlayerId → List PlayerId × Reply
queue_enqueue n p qs =
    if str_eq p ""
    then (qs, failed invalid_player_id)
    else if contains p qs
    then (qs, failed player_already_queued)
    else settle n (qs ++ p ∷ [])

abbrev pub queue_cancel : PlayerId → List PlayerId → List PlayerId × Bool
queue_cancel p qs = if contains p qs then (leave p qs, true) else (qs, false)

-- What the matchmaker stands for.
abbrev pub names : List Element → List PlayerId
names = map (λ e. e.player)

abbrev pub view : Matchmaker → List PlayerId
view m = names m.waiting

contains-some :
    (p : PlayerId) (a : ℕ) (es : List Element)
    → address_of p es ≡ some a
    → contains p (names es) ≡ true
contains-some p a [] h = cc
contains-some p a (e ∷ es) h = ground (arith, contains-some p a es)

contains-none :
    (p : PlayerId) (es : List Element) → address_of p es ≡ none → contains p (names es) ≡ false
contains-none p [] h = refl
contains-none p (e ∷ es) h = ground (arith, contains-none p es)

names-without : (p : PlayerId) (es : List Element) → names (without p es) ≡ leave p (names es)
names-without p [] = refl
names-without p (e ∷ es) = ground (arith, names-without p es)

form_match-step :
    (k : ℕ) (acc : List PlayerId) (m : Matchmaker) (e : Element) (es : List Element)
    → m.waiting ≡ e ∷ es
    → form_match (suc k) acc m ≡ form_match k (acc ++ e.player ∷ []) (take_out e.player e.address m)
unfolding form_match
form_match-step k acc m e es w = ground arith

form_match-done : (acc : List PlayerId) (m : Matchmaker) → form_match 0 acc m ≡ (m, match_of acc)
unfolding form_match
form_match-done acc m = refl

-- The loop takes the `k` oldest players and does not run into an empty queue.
form_match-takes :
    (k : ℕ) (es : List Element) (acc : List PlayerId) (m : Matchmaker)
    → m.waiting ≡ es
    → Linked m
    → k ≤ length es
    → (m' : Matchmaker) × (form_match k acc m ≡ (m', match_of (acc ++ take k (names es))))
      × (m'.waiting ≡ drop k es)
      × (m'.players_per_match ≡ m.players_per_match)
      × Linked m'
form_match-takes zero es acc m w v le =
    (m, form_match-done acc m ∙ ap (λ xs. (m, match_of xs)) (sym (append-nil acc)), w, refl, v)
form_match-takes (suc k) [] acc m w v le = absurd (omega arith)
form_match-takes (suc k) (e ∷ es) acc m w v le =
    let (v', w') = pop_front-Linked e es m w v in
    let (m', formed, rest, same, v'') =
      form_match-takes k es (acc ++ e.player ∷ []) (take_out e.player e.address m) w' v'
        (omega arith) in
    (
      m',
      form_match-step k acc m e es w
          ∙ formed
          ∙ ap (λ xs. (m', match_of xs)) (append_assoc acc (e.player ∷ []) (take k (names es))),
      rest,
      same,
      v'',
    )

names-drop : (k : ℕ) (es : List Element) → names (drop k es) ≡ drop k (names es)
names-drop zero es = refl
names-drop (suc k) [] = refl
names-drop (suc k) (e ∷ es) = names-drop k es

-- What `Enqueue` does once the player is in the queue.
finish : Matchmaker → Matchmaker × Reply
finish m =
    if ltb (length m.waiting) m.players_per_match
    then (m, no_match)
    else form_match m.players_per_match [] m

-- `r` is what the specification says, and the invariant holds in it.
abbrev Settles : ℕ → List PlayerId × Reply → Matchmaker × Reply → Type 0
Settles n spec r = (view r.0 ≡ spec.0) × (r.1 ≡ spec.1) × (r.0.players_per_match ≡ n) × Inv r.0

length-names : (es : List Element) → length (names es) ≡ length es
length-names es = length-map es (λ e. e.player)

finish-Settles :
    (m : Matchmaker)
    → Linked m
    → 0 < m.players_per_match
    → length m.waiting ≤ m.players_per_match
    → Settles m.players_per_match (settle m.players_per_match (view m)) (finish m)
unfolding finish
finish-Settles m v positive full = elim (Bool-cases (ltb (length m.waiting) m.players_per_match)) [
  | inl few ↦
      rw (length-names m.waiting, few)
        (refl, refl, refl, record { linked = v; short = ground arith })
  | inr enough ↦
      let (m', formed, rest, same, v') =
        form_match-takes m.players_per_match m.waiting [] m refl v (ground arith) in
      rw (length-names m.waiting, enough, formed)
        (
          ap names rest ∙ names-drop m.players_per_match m.waiting,
          refl,
          same,
          record {
            linked = v';
            short = omega (arith, ap length rest, length-drop m.players_per_match m.waiting);
          },
        )
]

names-push_back : (p : PlayerId) (m : Matchmaker) → view (push_back p m) ≡ view m ++ p ∷ []
unfolding push_back
names-push_back p m = map-append _ m.waiting _

length-push_back :
    (p : PlayerId) (m : Matchmaker) → length (push_back p m).waiting ≡ suc (length m.waiting)
unfolding push_back
length-push_back p m = grind (arith, length-append)

per_match-push_back :
    (p : PlayerId) (m : Matchmaker) → (push_back p m).players_per_match ≡ m.players_per_match
unfolding push_back
per_match-push_back p m = refl

admit-Settles :
    (p : PlayerId) (m : Matchmaker)
    → queued_at p m.queued ≡ none
    → Inv m
    → Settles m.players_per_match
        (settle m.players_per_match (view m ++ p ∷ []))
        (finish (push_back p m))
admit-Settles p m absent v =
    subst
      (λ qs. Settles m.players_per_match (settle m.players_per_match qs) (finish (push_back p m)))
      (names-push_back p m)
      (subst (λ n. Settles n (settle n (view (push_back p m))) (finish (push_back p m)))
        (per_match-push_back p m)
        (finish-Settles (push_back p m) (push_back-Linked p m absent v.linked)
          (omega (arith, per_match-push_back p m, v.short))
          (omega (arith, per_match-push_back p m, length-push_back p m, v.short))))

-- `Enqueue` does to the names in the queue what the plain queue does, and gives the same answer, in
-- every branch: the two refusals leave the queue alone, and a full group leaves from the front. It
-- never reads the front of an empty list, and the invariant holds again.
pub enqueue-queue :
    (p : PlayerId) (m : Matchmaker)
    → Inv m
    → let spec = queue_enqueue m.players_per_match p (view m) in
      let r = enqueue p m in
      (view r.0 ≡ spec.0) × (r.1 ≡ spec.1) × (r.0.players_per_match ≡ m.players_per_match) × Inv r.0
unfolding enqueue finish
enqueue-queue p m v = elim (Bool-cases (str_eq p "")) [
  | inl empty ↦ rw empty (refl, refl, refl, v)
  | inr named ↦ elim (Option-cases (queued_at p m.queued)) [
    | inl absent ↦
        rw (named, contains-none p m.waiting (sym (v.linked.agree p) ∙ absent), absent, enqueue)
          (admit-Settles p m absent v)
    | inr (a, found) ↦
        rw (named, contains-some p a m.waiting (sym (v.linked.agree p) ∙ found), found, enqueue)
          (refl, refl, refl, v)
  ]
]

length-remove-le : (a : ℕ) (es : List Element) → length (remove a es) ≤ length es
length-remove-le a [] = omega arith
length-remove-le a (e ∷ es) = ground (arith, length-remove-le a es)

-- `Cancel` takes a waiting player out of the names in the queue, and reports whether there was one;
-- the order of the others, and the invariant, stay.
pub cancel-queue :
    (p : PlayerId) (m : Matchmaker)
    → Inv m
    → let spec = queue_cancel p (view m) in
      let r = cancel p m in
      (view r.0 ≡ spec.0) × (r.1 ≡ spec.1) × (r.0.players_per_match ≡ m.players_per_match) × Inv r.0
unfolding cancel
cancel-queue p m v = elim (Option-cases (queued_at p m.queued)) [
  | inl absent ↦
      rw (contains-none p m.waiting (sym (v.linked.agree p) ∙ absent), absent, cancel)
        (refl, refl, refl, v)
  | inr (a, found) ↦
      let (v', gone) = take_out-Linked p a m found v.linked in
      rw (contains-some p a m.waiting (sym (v.linked.agree p) ∙ found), found, cancel)
        (
          ap names gone ∙ names-without p m.waiting,
          refl,
          refl,
          record { linked = v'; short = omega (arith, length-remove-le a m.waiting, v.short) },
        )
]
