-- ===== src/Prelude/BitArrays.antt =====
-- A list of words of 64 bits as an array of bits.
use Prim.Native.Nat.{ℕ, ◌/◌, ◌%◌, ◌<◌}
use mathlib.Core.Path.{◌≡◌}
use mathlib.Core.Logic.{◌≢◌, inl, inr}
use mathlib.Core.List.{List}
use native.Mathlib.Omega.{arith}
use test_resend.Prelude.Tests.{◌==◌, ==_iff, Bool-cases, if◌then◌else◌}
use test_resend.Prelude.Lists.{length, get_or, set, get_or-set_self, get_or-set_ne}
use test_resend.Prelude.Digits.{bit}

-- The bit of position `i`.
abbrev pub bit_at : List ℕ → ℕ → ℕ
bit_at bitmap i = bit (get_or bitmap (i / 64) 0) (i % 64)

-- Writing a word in which one digit alone is new changes one bit alone.
pub write_word :
    (bitmap : List ℕ) (i j new w : ℕ)
    → i / 64 < length bitmap
    → ((k : ℕ) → bit w k ≡ (if i % 64 == k then new else bit (get_or bitmap (i / 64) 0) k))
    → bit_at (set bitmap (i / 64) w) j ≡ (if i == j then new else bit_at bitmap j)
write_word bitmap i j new w hi hw = elim (Bool-cases (i / 64 == j / 64)) [
  | inl same ↦
      let e : i / 64 ≡ j / 64 = (==_iff _ _).0 same in
      rw (← e, get_or-set_self bitmap (i / 64) w 0 hi) (ground (arith, hw (j % 64)))
  | inr other ↦
      let d : i / 64 ≢ j / 64 = ground arith in
      rw (get_or-set_ne bitmap (i / 64) (j / 64) w 0 d) (ground arith)
]
