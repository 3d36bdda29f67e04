-- ===== src/Decimal.antt =====
-- `std::to_string` of an unsigned number, which src/Engine.cpp, src/PluginJson.cpp and
-- src/BNAdapter.cpp call, and reading its digits back.
use co_bra_for_binary_ninja.Prelude.{
  ℕ, zero, suc, ◌+◌, ◌-◌, ◌*◌, ◌/◌, ◌%◌, ◌<◌, ◌≡◌, refl, arith, [], ◌∷◌, ◌++◌, ap, ◌∙◌, sym,
  if◌then◌else◌, ltb, Bytes, codes,
}
use native.Mathlib.Nat.{le_refl}

-- The digits of `n`, the last one last; the number is divided by ten in each round.
unfoldable pub digits : ℕ → ℕ → Bytes
digits zero n = []
digits (suc rounds) n =
    let rest = digits rounds (n / 10) in
    if ltb n 10 then (b'0' + n) ∷ [] else rest ++ ((b'0' + n % 10) ∷ [])

-- More rounds than digits are needed; `n + 1` are enough.
unfoldable pub to_string : ℕ → Bytes
unfolding digits
to_string n = digits (suc n) n

unfoldable pub read_from : ℕ → Bytes → ℕ
read_from n [] = n
read_from n (c ∷ s) = read_from (n * 10 + (c - b'0')) s

read_from-append : (n : ℕ) (s t : Bytes) → read_from n (s ++ t) ≡ read_from (read_from n s) t
unfolding read_from
read_from-append n [] t = refl
read_from-append n (c ∷ s) t = read_from-append (n * 10 + (c - b'0')) s t

read_from-digits : (rounds n : ℕ) → n < rounds → read_from 0 (digits rounds n) ≡ n
unfolding digits read_from
read_from-digits zero n h = absurd (omega arith)
read_from-digits (suc rounds) n h = ground (
  arith,
  read_from-append 0 (digits rounds (n / 10)) ((b'0' + n % 10) ∷ []),
  read_from-digits rounds (n / 10),
)

-- Reading the digits gives the number back, so two numbers have two texts.
pub read_from-to_string : (n : ℕ) → read_from 0 (to_string n) ≡ n
unfolding to_string
read_from-to_string n = read_from-digits (suc n) n (le_refl _)

pub to_string_injective : (n m : ℕ) → to_string n ≡ to_string m → n ≡ m
to_string_injective n m e = sym (read_from-to_string n) ∙ ap (read_from 0) e ∙ read_from-to_string m

u64_max : to_string 18446744073709551615 ≡ codes "18446744073709551615"
unfolding to_string
u64_max = refl
