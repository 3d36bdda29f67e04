-- ===== src/PluginJson/Spelled.antt =====
-- src/PluginJson.cpp, `AppendQuoted`, `AppendBoolean` and `AppendUnsigned`: what they append spells
-- the value.
use native.Mathlib.Nat.{le_refl}
use co_bra_for_binary_ninja.Prelude.{
  ℕ, zero, suc, ◌+◌, ◌/◌, ◌%◌, ◌<◌, ◌≡◌, arith, Bool, true, false, not, ◌&&◌, ltb, leb, ◌==◌,
  Bool-cases, inl, inr, [], ◌∷◌, ◌++◌, Bytes, IsByteString,
}
use mathlib.Core.Path.{subst}
use co_bra_for_binary_ninja.Decimal.{digits, to_string}
use co_bra_for_binary_ninja.PluginJson.Escape.{escape_json_string}
use co_bra_for_binary_ninja.PluginJson.Grammar.{plain, Denotes, done, next}
use co_bra_for_binary_ninja.PluginJson.EscapeSound.{Repairs, end, ascii, escape_json_string-Denotes}
use co_bra_for_binary_ninja.PluginJson.Json.{
  text, number, boolean, Numeral, digit, shift, Spells, text_spelled, number_spelled, true_spelled,
  false_spelled,
}
use co_bra_for_binary_ninja.PluginJson.Format.{append_quoted, append_boolean, append_unsigned}

digits-Numeral : (rounds n : ℕ) → n < rounds → Numeral n (digits rounds n)
unfolding digits
digits-Numeral zero n h = absurd (omega arith)
digits-Numeral (suc rounds) n h = elim (Bool-cases (ltb n 10)) [
  | inl small ↦ rw small (digit n (ground arith))
  | inr large ↦ rw large (
      subst (λ (m : ℕ). Numeral m (digits rounds (n / 10) ++ ((b'0' + n % 10) ∷ []))) (omega arith)
        (shift (n / 10) (n % 10) (ground arith) (omega arith)
          (digits-Numeral rounds (n / 10) (ground arith))))
]

to_string-Numeral : (n : ℕ) → Numeral n (to_string n)
unfolding to_string
to_string-Numeral n = digits-Numeral (suc n) n (le_refl _)

-- A literal of printable ASCII without quotation marks and backslashes needs no escape.
abbrev pub is_plain : Bytes → Bool
is_plain [] = true
is_plain (c ∷ s) =
    (leb 0x20 c && (ltb c 0x80 && (not (c == b'"') && not (c == b'\\')))) && is_plain s

plain-Quoted : (k : Bytes) → is_plain k ≡ true → Repairs k k × Denotes k k
plain-Quoted [] h = (end, done)
plain-Quoted (c ∷ k) h =
    let (repairs, denotes) = plain-Quoted k (ground (arith, h)) in
    (
      ascii c (ground (arith, h)) repairs,
      next (plain c (ground (arith, h)) (ground (arith, h)) (ground (arith, h)) (ground (arith, h)))
          denotes,
    )

pub key : (k r : Bytes) → is_plain k ≡ true → Spells (text k) (b'"' ∷ (k ++ (b'"' ∷ r))) r
key k r h = let (repairs, denotes) = plain-Quoted k h in text_spelled k k r (k, repairs, denotes)

pub quoted : (v r : Bytes) → IsByteString v → Spells (text v) (append_quoted v r) r
unfolding append_quoted
quoted v r h = text_spelled v (escape_json_string v) r (escape_json_string-Denotes v h)

pub unsigned : (n : ℕ) (r : Bytes) → Spells (number n) (append_unsigned n r) r
unfolding append_unsigned
unsigned n r = number_spelled n (to_string n) r (to_string-Numeral n)

pub flag : (b : Bool) (r : Bytes) → Spells (boolean b) (append_boolean b r) r
unfolding append_boolean
flag true r = true_spelled r
flag false r = false_spelled r
