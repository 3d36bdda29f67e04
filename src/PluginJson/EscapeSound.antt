-- ===== src/PluginJson/EscapeSound.antt =====
-- src/PluginJson.cpp, `EscapeJsonString`: its output is the contents of a JSON string that denotes
-- the input, with every byte that is not part of a UTF-8 sequence read as the code point of that
-- number.
use mathlib.Core.Path.{subst}
use native.Mathlib.Decide.{ℕ_discrete}
use native.Mathlib.Nat.{le_refl}
use co_bra_for_binary_ninja.Prelude.{
  ℕ, zero, suc, ◌+◌, ◌-◌, ◌*◌, ◌/◌, ◌%◌, ◌^◌, ◌≤◌, ◌<◌, bit_and, ◌≡◌, ◌≢◌, inl, inr, sym, ap, ◌∙◌,
  refl, arith, true, ◌&&◌, [], ◌∷◌, ◌++◌, if◌then◌else◌, ltb, ltb→lt, ◌==◌, Bool-cases, length,
  get_or, take, drop, take-append-drop, length-drop-le, All-drop, passes, byte_law, Bytes, codes,
  IsByte, IsByteString,
}
use co_bra_for_binary_ninja.PluginJson.Escape.{
  k_hex, append_hex_byte, valid_utf8_length, escape_round, escape_loop, escape_json_string,
}
use co_bra_for_binary_ninja.PluginJson.Utf8.{IsScalar, IsEncoded, encode, valid_utf8_length_exact}
use co_bra_for_binary_ninja.PluginJson.Grammar.{
  Short, HexDigit, Piece, plain, wide, short, unicode, Denotes, done, next,
}

-- `t` is `s` with each byte that starts no UTF-8 sequence replaced by the UTF-8 form of the code
-- point of that number.
pub data Repairs : Bytes → Bytes → Type 0 where
  end : Repairs [] []
  ascii : (c : ℕ) {s t : Bytes} → c < 0x80 → Repairs s t → Repairs (c ∷ s) (c ∷ t)
  keep :
      (cp : ℕ) {s t : Bytes}
      → 0x80 ≤ cp
      → IsScalar cp
      → Repairs s t
      → Repairs (encode cp ++ s) (encode cp ++ t)
  mend :
      (c : ℕ) {s t : Bytes}
      → 0x80 ≤ c
      → ((n : ℕ) → n ≢ 0 → ¬ (IsEncoded (c ∷ s) n))
      → Repairs s t
      → Repairs (c ∷ s) (encode c ++ t)

digit : ℕ → ℕ
digit v = if ltb v 10 then b'0' + v else b'a' + v - 10

digit-HexDigit : (v : ℕ) → v < 16 → HexDigit (digit v) v
unfolding digit
digit-HexDigit v h = ground arith

hex_table :
    passes
      (λ v.
        (get_or k_hex (bit_and (v / 2 ^ 4) 0x0f) 0 == digit (v / 16))
        && (get_or k_hex (bit_and v 0x0f) 0 == digit (v % 16)))
      0
      256
    ≡ true
unfolding passes digit
hex_table = refl

append_hex_byte-digits :
    (v : ℕ) → IsByte v → append_hex_byte v ≡ codes "\\u00" ++ (digit (v / 16) ∷ digit (v % 16) ∷ [])
unfolding append_hex_byte
append_hex_byte-digits v h = ground (arith, byte_law _ hex_table v h)

digits_value : (v : ℕ) → 0 * 0x1000 + 0 * 0x100 + v / 16 * 0x10 + v % 16 ≡ v
digits_value v = omega arith

append_hex_byte-Piece : (v : ℕ) → IsByte v → Piece (append_hex_byte v) (encode v)
append_hex_byte-Piece v h = rw (append_hex_byte-digits v h) (
    subst (λ (w : ℕ). Piece (codes "\\u00" ++ (digit (v / 16) ∷ digit (v % 16) ∷ [])) (encode w))
      (digits_value v)
      (unicode 0 0 (v / 16) (v % 16) (inl (omega arith, refl)) (inl (omega arith, refl))
        (digit-HexDigit (v / 16) (omega arith)) (digit-HexDigit (v % 16) (omega arith))
        (inl (omega arith))))

encode-ascii : (v : ℕ) → v < 0x80 → encode v ≡ v ∷ []
unfolding encode
encode-ascii v h = ground arith

-- What one round of the loop does to the byte `a`, followed by `s`.
data Covers (a : ℕ) (s : Bytes) (chunk : Bytes) (advance : ℕ) : Type 0 where
  one_ascii : advance ≡ 1 → a < 0x80 → Piece chunk (a ∷ []) → Covers a s chunk advance
  sequence : IsEncoded (a ∷ s) advance → chunk ≡ take advance (a ∷ s) → Covers a s chunk advance
  malformed :
      advance ≡ 1
      → 0x80 ≤ a
      → valid_utf8_length (a ∷ s) ≡ 0
      → Piece chunk (encode a)
      → Covers a s chunk advance

abbrev CoversRound : ℕ → Bytes → Type 0
CoversRound a s = Covers a s (escape_round a s).0 (escape_round a s).1

CoversRound-of :
    (a : ℕ) (s chunk : Bytes) (advance : ℕ)
    → escape_round a s ≡ (chunk, advance)
    → Covers a s chunk advance
    → CoversRound a s
CoversRound-of a s chunk advance e c = subst (λ (r : Bytes × ℕ). Covers a s r.0 r.1) (sym e) c

escaped_round :
    (b e : ℕ) (s : Bytes) (a : ℕ)
    → Short e b
    → b < 0x80
    → escape_round b s ≡ (b'\\' ∷ e ∷ [], 1)
    → a ≡ b
    → CoversRound a s
escaped_round b e s a sh lt r same =
    subst (λ (x : ℕ). CoversRound x s) (sym same)
      (CoversRound-of b s (b'\\' ∷ e ∷ []) 1 r (one_ascii refl lt (short sh)))

-- A round at a byte with no short form.
module _ (a : ℕ) (s : Bytes) (bytes : IsByteString (a ∷ s)) (h1 : a ≢ b'"') (h2 : a ≢ b'\\')
    (h3 : a ≢ 8) (h4 : a ≢ 12) (h5 : a ≢ 10) (h6 : a ≢ 13) (h7 : a ≢ 9) where
  round_control : a < 0x20 → escape_round a s ≡ (append_hex_byte a, 1)
  unfolding escape_round
  round_control h = ground arith

  round_ascii : 0x20 ≤ a → a < 0x80 → escape_round a s ≡ (a ∷ [], 1)
  unfolding escape_round
  round_ascii h k = ground arith

  round_malformed :
      0x80 ≤ a → valid_utf8_length (a ∷ s) ≡ 0 → escape_round a s ≡ (append_hex_byte a, 1)
  unfolding escape_round
  round_malformed h k = ground arith

  round_sequence :
      0x80 ≤ a
      → valid_utf8_length (a ∷ s) ≢ 0
      → escape_round a s ≡ (take (valid_utf8_length (a ∷ s)) (a ∷ s), valid_utf8_length (a ∷ s))
  unfolding escape_round
  round_sequence h k = ground arith

  high_round : 0x80 ≤ a → CoversRound a s
  high_round h = elim (ℕ_discrete (valid_utf8_length (a ∷ s)) 0) [
    | yes e ↦
        CoversRound-of a s _ _ (round_malformed h e)
          (malformed refl h e (append_hex_byte-Piece a bytes.0))
    | no ne ↦
        CoversRound-of a s _ _ (round_sequence h ne)
          (sequence ((valid_utf8_length_exact a s _ bytes ne).0 refl) refl)
  ]

  plain_round : CoversRound a s
  plain_round = elim (Bool-cases (ltb a 0x80)) [
    | inr e ↦ high_round (ground arith)
    | inl e ↦ elim (Bool-cases (ltb a 0x20)) [
      | inl f ↦ CoversRound-of a s _ _ (round_control (ltb→lt a 0x20 f)) (
          one_ascii refl (ltb→lt a 0x80 e)
            (rw (← encode-ascii a (ltb→lt a 0x80 e)) (append_hex_byte-Piece a bytes.0)))
      | inr f ↦
          CoversRound-of a s _ _ (round_ascii (ground arith) (ltb→lt a 0x80 e))
            (one_ascii refl (ltb→lt a 0x80 e) (plain a (ground arith) (ltb→lt a 0x80 e) h1 h2))
    ]
  ]

round_covers : (a : ℕ) (s : Bytes) → IsByteString (a ∷ s) → CoversRound a s
unfolding escape_round
round_covers a s bytes = elim (ℕ_discrete a b'"') [
  | yes e ↦ escaped_round b'"' b'"' s a Short.quote (omega arith) refl e
  | no h1 ↦ elim (ℕ_discrete a b'\\') [
    | yes e ↦ escaped_round b'\\' b'\\' s a Short.backslash (omega arith) refl e
    | no h2 ↦ elim (ℕ_discrete a 8) [
      | yes e ↦ escaped_round 8 b'b' s a Short.backspace (omega arith) refl e
      | no h3 ↦ elim (ℕ_discrete a 12) [
        | yes e ↦ escaped_round 12 b'f' s a Short.form_feed (omega arith) refl e
        | no h4 ↦ elim (ℕ_discrete a 10) [
          | yes e ↦ escaped_round 10 b'n' s a Short.line_feed (omega arith) refl e
          | no h5 ↦ elim (ℕ_discrete a 13) [
            | yes e ↦ escaped_round 13 b'r' s a Short.carriage_return (omega arith) refl e
            | no h6 ↦ elim (ℕ_discrete a 9) [
              | yes e ↦ escaped_round 9 b't' s a Short.tab (omega arith) refl e
              | no h7 ↦ plain_round a s bytes h1 h2 h3 h4 h5 h6 h7
            ]
          ]
        ]
      ]
    ]
  ]
]

escape_loop-drop : (k : ℕ) (s : Bytes) → escape_loop k s ≡ escape_loop 0 (drop k s)
unfolding escape_loop
escape_loop-drop zero s = refl
escape_loop-drop (suc k) [] = refl
escape_loop-drop (suc k) (x ∷ s) = escape_loop-drop k s

escape_loop-round :
    (a : ℕ) (s : Bytes)
    → escape_loop 0 (a ∷ s)
      ≡ (escape_round a s).0 ++ escape_loop 0 (drop ((escape_round a s).1 - 1) s)
unfolding escape_loop
escape_loop-round a s =
    ap (λ (r : Bytes). (escape_round a s).0 ++ r) (escape_loop-drop ((escape_round a s).1 - 1) s)

abbrev Escaped : Bytes → Bytes → Type 0
Escaped s out = (t : Bytes) × Repairs s t × Denotes out t

length-encode-pos : (cp : ℕ) → 0 < length (encode cp)
unfolding encode
length-encode-pos cp = ground arith

drop-pred : (n : ℕ) (a : ℕ) (s : Bytes) → 0 < n → drop n (a ∷ s) ≡ drop (n - 1) s
drop-pred zero a s h = absurd (omega arith)
drop-pred (suc m) a s h = ap (λ (k : ℕ). drop k s) (omega arith)

not-IsEncoded :
    (a : ℕ) (s : Bytes)
    → IsByteString (a ∷ s)
    → valid_utf8_length (a ∷ s) ≡ 0
    → (n : ℕ) → n ≢ 0
    → ¬ (IsEncoded (a ∷ s) n)
not-IsEncoded a s bytes bad n pos enc =
    pos (sym ((valid_utf8_length_exact a s n bytes pos).1 enc) ∙ bad)

extend :
    (a : ℕ) (s chunk : Bytes) (advance : ℕ)
    → IsByteString (a ∷ s)
    → Covers a s chunk advance
    → Escaped (drop (advance - 1) s) (escape_loop 0 (drop (advance - 1) s))
    → Escaped (a ∷ s) (chunk ++ escape_loop 0 (drop (advance - 1) s))
extend a s chunk advance bytes (one_ascii one lt p) ih =
    let (t, r, d) = rw one at ih in rw one (a ∷ t, ascii a lt r, next p d)
extend a s chunk advance bytes (sequence (cp, lo, scalar, same, size) e) (t, r, d) =
    let split =
      ap (λ (r : Bytes). encode cp ++ r)
        (sym (drop-pred advance a s (rw size (length-encode-pos cp))))
      ∙ ap (λ (r : Bytes). r ++ drop advance (a ∷ s)) (sym same)
      ∙ take-append-drop advance (a ∷ s) in
    (
      encode cp ++ t,
      subst (λ (u : Bytes). Repairs u (encode cp ++ t)) split (keep cp lo scalar r),
      subst (λ (c : Bytes). Denotes (c ++ escape_loop 0 (drop (advance - 1) s)) (encode cp ++ t))
          (sym (e ∙ same)) (next (wide cp lo scalar) d),
    )
extend a s chunk advance bytes (malformed one hi bad p) ih =
    let (t, r, d) = rw one at ih in
    rw one (encode a ++ t, mend a hi (not-IsEncoded a s bytes bad) r, next p d)

escaped : (fuel : ℕ) (s : Bytes) → length s ≤ fuel → IsByteString s → Escaped s (escape_loop 0 s)
escaped fuel [] h bytes = ([], Repairs.end, unfold escape_loop in done)
escaped zero (a ∷ s) h bytes = absurd (omega arith)
escaped (suc fuel) (a ∷ s) h bytes = rw escape_loop-round (
    extend a s (escape_round a s).0 (escape_round a s).1 bytes (round_covers a s bytes) (
      escaped fuel (drop ((escape_round a s).1 - 1) s)
        (omega (arith, length-drop-le ((escape_round a s).1 - 1) s))
        (All-drop IsByte ((escape_round a s).1 - 1) s bytes.1)))

-- What `EscapeJsonString` writes is the contents of a JSON string literal, and the text that it
-- denotes is the input with each byte outside a UTF-8 sequence read as the code point of its value.
pub escape_json_string-Denotes :
    (value : Bytes)
    → IsByteString value
    → (t : Bytes) × Repairs value t × Denotes (escape_json_string value) t
unfolding escape_json_string
escape_json_string-Denotes value bytes = escaped (length value) value (le_refl _) bytes
