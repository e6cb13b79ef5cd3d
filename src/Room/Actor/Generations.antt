-- ===== src/Room/Actor/Generations.antt =====
-- room.go: inputs of a session that has left are never applied, also when it joins again.
use the_return_of_the_odysse.Base.{
  ℕ, zero, suc, ◌+◌, ◌^◌, ◌≡◌, ◌≢◌, ◌≤◌, ◌<◌, ◌⊎◌, inl, inr, refl, ap, sym, subst, ◌∙◌, false,
  Option, none, some, List, [], ◌∷◌, arith, ◌==◌, All, Option-cases, Bool-cases,
}
use the_return_of_the_odysse.Base.Words.{u64}
use the_return_of_the_odysse.Base.Maps.{lookup, insert, erase, lookup-insert, lookup-erase}
use the_return_of_the_odysse.Room.{
  Game, Request, joins, leaves, Control, Movement, Binding, taking_controls, taking_inputs, Room,
  Sight, applied,
}
use the_return_of_the_odysse.Room.Actor.{
  is_stale, joined, join, leave, heeded, serve, take_control, take_input, move,
}

-- The session is out, or bound again under a generation above `old`.
abbrev pub IsAbove : ℕ → Option Binding → Type 0
IsAbove old none = Unit
IsAbove old (some b) = old < b.generation

-- What holds from when a session left, `old` being the room's generation then.
pub record Gone {g : Game} (session old : ℕ) (r : Room g) : Type 0 where
  pub grown : old ≤ r.generation
  pub member : IsAbove old (lookup session r.members)

-- An input that is applied is not of the session, or newer than `old`.
abbrev pub IsNewer : {g : Game} → ℕ → ℕ → Sight g → Type 0
IsNewer session old (applied m player) = (m.session_id ≢ session) ⊎ (old < m.generation)
IsNewer session old _ = Unit

-- One step raises the generation by at most one, and keeps `Gone`.
abbrev pub Keeps : {g : Game} → ℕ → ℕ → Room g → Room g → Type 0
Keeps session old r r' = Gone session old r' × (r'.generation ≤ r.generation + 1)

IsAbove-insert :
    (session old key : ℕ) (b : Binding) (members : List (ℕ × Binding))
    → IsAbove old (lookup session members)
    → old < b.generation
    → IsAbove old (lookup session (insert key b members))
IsAbove-insert session old key b members h lt = rw (lookup-insert key session) (ground arith)

IsAbove-erase :
    (session old key : ℕ) (members : List (ℕ × Binding))
    → IsAbove old (lookup session members)
    → IsAbove old (lookup session (erase key members))
IsAbove-erase session old key members h = rw (lookup-erase key session) (ground arith)

joined-Keeps :
    {g : Game} (session old key player : ℕ) (answer : Option ℕ × g.World) (r : Room g)
    → Gone session old r
    → r.generation + 1 < 2 ^ 64
    → Keeps session old r (joined key player answer r).0
joined-Keeps session old key player (some e, world) r v h =
    (record { grown = v.grown; member = v.member }, omega arith)
joined-Keeps session old key player (none, world) r v h =
    let fresh : u64 (r.generation + 1) ≡ r.generation + 1 = omega arith in
    let grown = v.grown in
    (
      record {
        grown = omega (arith, fresh);
        member = IsAbove-insert session old key _ r.members v.member (omega (arith, fresh));
      },
      omega (arith, fresh),
    )

join-Keeps :
    {g : Game} (session old key player : ℕ) (r : Room g)
    → Gone session old r
    → r.generation + 1 < 2 ^ 64
    → Keeps session old r (join key player r).0
unfolding join
join-Keeps {g = g} session old key player r v h = elim (Option-cases (lookup key r.members)) [
  | inl e ↦ rw (e, join) (joined-Keeps session old key player (g.add_player player r.world) r v h)
  | inr (b, e) ↦ rw (e, join) (let grown = v.grown in let member = v.member in ground arith)
]

leave-Keeps :
    {g : Game} (session old key : ℕ) (r : Room g)
    → Gone session old r
    → Keeps session old r (leave key r).0
unfolding leave
leave-Keeps session old key r v = elim (Option-cases (lookup key r.members)) [
  | inl e ↦ rw (e, leave) (v, omega arith)
  | inr (b, e) ↦
      rw (e, leave)
        (
          record { grown = v.grown; member = IsAbove-erase session old key r.members v.member },
          omega arith,
        )
]

pub same-Keeps :
    {g : Game} (session old : ℕ) (r r' : Room g)
    → Gone session old r
    → r'.generation ≡ r.generation
    → r'.members ≡ r.members
    → Keeps session old r r'
same-Keeps session old r r' v e m =
    let grown = v.grown in
    (
      record {
        grown = omega arith;
        member = subst (λ ms. IsAbove old (lookup session ms)) (sym m) v.member;
      },
      omega arith,
    )

served-Keeps :
    {g : Game} (session old key : ℕ) (request : Request g) (r : Room g)
    → Gone session old r
    → r.generation + 1 < 2 ^ 64
    → Keeps session old r (serve (record { session_id = key; request = request }) r).0
unfolding serve
served-Keeps session old key (joins player) r v h = join-Keeps session old key player r v h
served-Keeps session old key leaves r v h = leave-Keeps session old key r v
served-Keeps session old key request r v h =
    same-Keeps session old r _ v (ground arith) (ground arith)

serve-Keeps :
    {g : Game} (session old : ℕ) (c : Control g) (r : Room g)
    → Gone session old r
    → r.generation + 1 < 2 ^ 64
    → Keeps session old r (serve c r).0
serve-Keeps session old c r v h = served-Keeps session old c.session_id c.request r v h

pub take_control-Keeps :
    {g : Game} (session old left now : ℕ) (r : Room g) (cs : List (Control g))
    → r.controls ≡ cs
    → Gone session old r
    → r.generation + 1 < 2 ^ 64
    → Keeps session old r (take_control left now r).0
      × All (IsNewer session old) (take_control left now r).1
unfolding take_control
take_control-Keeps session old zero now r cs e v h = (same-Keeps session old r _ v refl refl, tt)
take_control-Keeps session old (suc left) now r [] e v h =
    rw (e, take_control) (same-Keeps session old r _ v refl refl, tt)
take_control-Keeps session old (suc left) now r (c ∷ cs) e v h =
    let r0 = record r { controls = cs; phase = taking_controls left now } in
    let v0 : Gone session old r0 = record { grown = v.grown; member = v.member } in
    rw (e, take_control) (serve-Keeps session old c r0 v0 h, (tt, tt))

heeded-Keeps :
    {g : Game} (session old player : ℕ) (m : Movement g) (answer : Option ℕ × g.World) (r : Room g)
    → Gone session old r
    → (m.session_id ≢ session) ⊎ (old < m.generation)
    → Keeps session old r (heeded m player answer r).0
      × All (IsNewer session old) (heeded m player answer r).1
heeded-Keeps session old player m (none, world) r v newer =
    (same-Keeps session old r _ v refl refl, (newer, tt))
heeded-Keeps session old player m (some e, world) r v newer =
    (same-Keeps session old r _ v refl refl, (newer, tt))

-- A movement that is not stale belongs to the present binding of its session.
fresh-newer :
    {g : Game} (session old now timeout : ℕ) (m : Movement g) (r : Room g) (b : Binding)
    → Gone session old r
    → lookup m.session_id r.members ≡ some b
    → is_stale m b now timeout ≡ false
    → (m.session_id ≢ session) ⊎ (old < m.generation)
unfolding is_stale
fresh-newer session old now timeout m r b v e f = elim (Bool-cases (m.session_id == session)) [
  | inl same ↦
      let ids : session ≡ m.session_id = ground arith in
      let at : lookup session r.members ≡ some b = ap (λ i. lookup i r.members) ids ∙ e in
      let above : IsAbove old (some b) = subst (IsAbove old) at v.member in inr (ground arith)
  | inr apart ↦ inl (ground arith)
]

move-Keeps :
    {g : Game} (session old now : ℕ) (m : Movement g) (r : Room g)
    → Gone session old r
    → Keeps session old r (move m now r).0 × All (IsNewer session old) (move m now r).1
unfolding move
move-Keeps {g = g} session old now m r v = elim (Option-cases (lookup m.session_id r.members)) [
  | inl e ↦ rw (e, move) (same-Keeps session old r _ v refl refl, tt)
  | inr (b, e) ↦ elim (Bool-cases (is_stale m b now r.config.input_timeout)) [
    | inl f ↦ rw (e, f, move) (same-Keeps session old r _ v refl refl, tt)
    | inr f ↦
        rw (e, f, move)
          (heeded-Keeps session old b.player_id m
            (g.apply_input b.player_id m.input m.received r.world) r v
            (fresh-newer session old now r.config.input_timeout m r b v e f))
  ]
]

pub take_input-Keeps :
    {g : Game} (session old left now : ℕ) (r : Room g) (ms : List (Movement g))
    → r.inputs ≡ ms
    → Gone session old r
    → Keeps session old r (take_input left now r).0
      × All (IsNewer session old) (take_input left now r).1
unfolding take_input
take_input-Keeps session old zero now r ms e v = (same-Keeps session old r _ v refl refl, tt)
take_input-Keeps session old (suc left) now r [] e v =
    rw (e, take_input) (same-Keeps session old r _ v refl refl, tt)
take_input-Keeps session old (suc left) now r (m ∷ ms) e v =
    let r0 = record r { inputs = ms; phase = taking_inputs left now } in
    let v0 : Gone session old r0 = record { grown = v.grown; member = v.member } in
    rw (e, take_input) (move-Keeps session old now m r0 v0)
