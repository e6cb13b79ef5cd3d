-- ===== src/Game/Random.antt =====
-- The SplitMix64 generator of server/internal/game/reward/round.go (`next`), which encounter.go
-- (`nextSplitMix64`) and director/rule_based.go (`nextRandom`) repeat, and the shuffle that
-- `NewRound` draws the options with.
pub mod Shuffle
use Prim.Native.Nat.{bit_xor}
use the_return_of_the_odysse.Base.{
  ℕ, zero, suc, ◌+◌, ◌*◌, ◌/◌, ◌%◌, ◌^◌, Option, none, some, List, [], ◌∷◌, get_elem?, length, ◌-◌,
}
use the_return_of_the_odysse.Base.Words.{u64}
use the_return_of_the_odysse.Base.Counting.{set}

-- The number drawn and the next state.
unfoldable pub next : ℕ → ℕ × ℕ
next state =
    let s = u64 (state + 0x9e37_79b9_7f4a_7c15) in
    let a = u64 (bit_xor s (s / 2 ^ 30) * 0xbf58_476d_1ce4_e5b9) in
    let b = u64 (bit_xor a (a / 2 ^ 27) * 0x94d0_49bb_1331_11eb) in (bit_xor b (b / 2 ^ 31), s)

-- `xs[i], xs[j] = xs[j], xs[i]`
unfoldable pub swap : ℕ → ℕ → List ℕ → List ℕ
swap i j xs = elim (get_elem? xs i) [
  | none ↦ xs
  | some a ↦ elim (get_elem? xs j) [ none ↦ xs | some b ↦ set (set xs i b) j a ]
]

-- The loop from index `i` down to 1.
unfoldable pub shuffle_from : ℕ → ℕ → List ℕ → List ℕ
unfolding swap
shuffle_from zero state xs = xs
shuffle_from (suc i) state xs =
    let (drawn, state') = next state in
    shuffle_from i state' (swap (suc i) (drawn % (suc i + 1)) xs)

unfoldable pub shuffle : ℕ → List ℕ → List ℕ
unfolding shuffle_from
shuffle state xs = shuffle_from (length xs - 1) state xs
