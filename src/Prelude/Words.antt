-- ===== src/Prelude/Words.antt =====
-- Bytes as native numbers, and laws of bytes that are proved by trying each one.
use Prim.Native.Nat.{ℕ, zero, suc, ◌+◌, ◌≤◌, ◌<◌}
use mathlib.Core.Path.{◌≡◌}
use mathlib.Core.Bool.{Bool, true, ◌&&◌}
use mathlib.Core.List.{List}
use native.Mathlib.Omega.{arith}
use co_bra_for_binary_ninja.Prelude.Lists.{All}

abbrev pub IsByte : ℕ → Type 0
IsByte b = b < 256

abbrev pub IsByteString : List ℕ → Type 0
IsByteString s = All IsByte s

-- Whether the test passes at the `count` numbers from `first` on.
unfoldable pub passes : (ℕ → Bool) → ℕ → ℕ → Bool
passes test first zero = true
passes test first (suc count) = test first && passes test (suc first) count

passes_at :
    (test : ℕ → Bool) (first count b : ℕ)
    → passes test first count ≡ true
    → first ≤ b
    → b < first + count
    → test b ≡ true
unfolding passes
passes_at test first zero b ok lo hi = absurd (omega arith)
passes_at test first (suc count) b ok lo hi = ground (arith, passes_at test (suc first) count b)

-- A test that passes at all 256 bytes.
pub byte_law : (test : ℕ → Bool) → passes test 0 256 ≡ true → (b : ℕ) → IsByte b → test b ≡ true
byte_law test ok b byte = passes_at test 0 256 b ok (omega arith) (omega arith)
