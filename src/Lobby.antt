-- ===== src/Lobby.antt =====
-- server/internal/lobby/matchmaker.go. `container/list` is modelled with its aliasing: an element
-- has an address, the list holds the elements in order, and the `queued` index holds addresses.
-- `Remove` looks for the element of that address. `Front().Value` of an empty list is a nil
-- dereference: `panics`.
pub mod Queue
pub mod Invariant
pub mod Refinement
pub mod History
mod Tests
use Prim.Native.String.{String}
use text.Mathlib.Text.{◌==◌ as str_eq}
use the_return_of_the_odysse.Base.{
  ℕ, zero, suc, ◌+◌, ◌-◌, Bool, true, false, Option, none, some, List, [], ◌∷◌, ◌++◌, ltb, leb,
  ◌==◌, if◌then◌else◌, length,
}

abbrev pub PlayerId : Type 0
PlayerId = String

pub record Element : Type 0 where
  pub address : ℕ
  pub player : PlayerId

pub record Matchmaker : Type 0 where
  pub players_per_match : ℕ
  pub waiting : List Element
  pub queued : List (PlayerId × ℕ)
  pub next_address : ℕ

pub data Error : Type 0 where
  invalid_players_per_match invalid_player_id player_already_queued : Error

-- `m.queued[player]`
abbrev pub queued_at : PlayerId → List (PlayerId × ℕ) → Option ℕ
queued_at p [] = none
queued_at p (entry ∷ index) = if str_eq entry.0 p then some entry.1 else queued_at p index

-- `delete(m.queued, player)`
abbrev pub delete : PlayerId → List (PlayerId × ℕ) → List (PlayerId × ℕ)
delete p [] = []
delete p (entry ∷ index) = if str_eq entry.0 p then delete p index else entry ∷ delete p index

-- `m.waiting.Remove(element)`
abbrev pub remove : ℕ → List Element → List Element
remove a [] = []
remove a (e ∷ es) = if e.address == a then es else e ∷ remove a es

-- `NewMatchmaker`; a Go `int` that is not positive is read as 0 here.
unfoldable pub new_matchmaker : ℕ → Option Matchmaker
new_matchmaker n =
    if leb n 0
    then none
    else some (record { players_per_match = n; waiting = []; queued = []; next_address = 0 })

pub data Reply : Type 0 where
  no_match : Reply
  match_of : List PlayerId → Reply
  failed : Error → Reply
  panics : Reply

-- The loop of `Enqueue` that takes players from the front, with `rounds` still to go; `players`
-- are those taken before.
unfoldable pub form_match : ℕ → List PlayerId → Matchmaker → Matchmaker × Reply
form_match zero players m = (m, match_of players)
form_match (suc rounds) players m = elim m.waiting [
  | [] ↦ (m, panics)
  | front ∷ _ ↦
      form_match rounds (players ++ front.player ∷ []) (record m {
        queued = delete front.player m.queued;
        waiting = remove front.address m.waiting;
      })
]

-- `m.queued[player] = m.waiting.PushBack(player)`
unfoldable pub push_back : PlayerId → Matchmaker → Matchmaker
push_back p m = record m {
  waiting = m.waiting ++ record { address = m.next_address; player = p } ∷ [];
  queued = (p, m.next_address) ∷ m.queued;
  next_address = suc m.next_address;
}

unfoldable pub enqueue : PlayerId → Matchmaker → Matchmaker × Reply
unfolding form_match push_back
enqueue p m = if str_eq p "" then (m, failed invalid_player_id) else elim (queued_at p m.queued) [
  | some _ ↦ (m, failed player_already_queued)
  | none ↦
      let m' = push_back p m in
      if ltb (length m'.waiting) m'.players_per_match
      then (m', no_match)
      else form_match m'.players_per_match [] m'
]

unfoldable pub cancel : PlayerId → Matchmaker → Matchmaker × Bool
cancel p m = elim (queued_at p m.queued) [
  | none ↦ (m, false)
  | some a ↦ (record m { queued = delete p m.queued; waiting = remove a m.waiting }, true)
]

-- `Waiting`
pub waiting_count : Matchmaker → ℕ
waiting_count m = length m.waiting
