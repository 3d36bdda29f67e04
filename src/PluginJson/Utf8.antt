-- ===== src/PluginJson/Utf8.antt =====
-- src/PluginJson.cpp, `ValidUtf8Length`: what it accepts, against the definition of UTF-8 as the
-- arithmetic encoding of the Unicode scalar values.
use co_bra_for_binary_ninja.Prelude.{
  ℕ, zero, suc, ◌+◌, ◌-◌, ◌*◌, ◌/◌, ◌%◌, ◌≤◌, ◌<◌, ◌≡◌, ◌≢◌, ◌↔◌, sym, ap, ◌∙◌, ◌⊎◌, inl, inr, refl,
  arith, Bool, true, ◌&&◌, [], ◌∷◌, ◌++◌, if◌then◌else◌, ltb, leb, ltb→lt, Bool-cases, length,
  get_or, take, drop, take-append-drop, passes, byte_law, Bytes, IsByte, IsByteString,
}
use mathlib.Core.Path.{subst}
use co_bra_for_binary_ninja.PluginJson.Escape.{valid_utf8_length, is_continuation}

-- A Unicode scalar value: a code point that is no surrogate.
abbrev pub IsScalar : ℕ → Type 0
IsScalar cp = (cp < 0xd800) ⊎ ((0xe000 ≤ cp) × (cp < 0x110000))

-- The UTF-8 form of a scalar value (RFC 3629, section 3).
unfoldable pub encode : ℕ → Bytes
encode cp =
    if ltb cp 0x80
    then cp ∷ []
    else if ltb cp 0x800
    then (0xc0 + cp / 0x40) ∷ (0x80 + cp % 0x40) ∷ []
    else if ltb cp 0x10000
    then (0xe0 + cp / 0x1000) ∷ (0x80 + cp / 0x40 % 0x40) ∷ (0x80 + cp % 0x40) ∷ []
    else (0xf0 + cp / 0x40000)
      ∷ (0x80 + cp / 0x1000 % 0x40)
      ∷ (0x80 + cp / 0x40 % 0x40)
      ∷ (0x80 + cp % 0x40)
      ∷ []

same_test : Bool → Bool → Bool
same_test a b = if a then b else (if b then a else true)

continuation_table :
    passes (λ v. same_test (is_continuation v) (leb 0x80 v && ltb v 0xc0)) 0 256 ≡ true
unfolding passes same_test is_continuation
continuation_table = refl

same_test-eq : (a b : Bool) → same_test a b ≡ true → a ≡ b
unfolding same_test
same_test-eq a b h = ground arith

pub is_continuation_range : (v : ℕ) → IsByte v → is_continuation v ≡ (leb 0x80 v && ltb v 0xc0)
is_continuation_range v h = same_test-eq _ _ (byte_law _ continuation_table v h)

in_range-is_continuation : (v : ℕ) → 0x80 ≤ v → v < 0xc0 → is_continuation v ≡ true
in_range-is_continuation v lo hi = ground (arith, is_continuation_range v)

is_continuation-in_range : (v : ℕ) → IsByte v → is_continuation v ≡ true → (0x80 ≤ v) × (v < 0xc0)
is_continuation-in_range v byte h = ground (arith, is_continuation_range v)

valid_two :
    (a b : ℕ) (rest : Bytes)
    → 0xc2 ≤ a
    → a < 0xe0
    → 0x80 ≤ b
    → b < 0xc0
    → valid_utf8_length (a ∷ b ∷ rest) ≡ 2
unfolding valid_utf8_length
valid_two a b rest h1 h2 h3 h4 = ground (arith, is_continuation_range b)

valid_three :
    (a b c : ℕ) (rest : Bytes)
    → 0xe0 ≤ a
    → a < 0xf0
    → 0x80 ≤ b
    → b < 0xc0
    → 0x80 ≤ c
    → c < 0xc0
    → (a ≡ 0xe0 → 0xa0 ≤ b)
    → (a ≡ 0xed → b < 0xa0)
    → valid_utf8_length (a ∷ b ∷ c ∷ rest) ≡ 3
unfolding valid_utf8_length
valid_three a b c rest h1 h2 h3 h4 h5 h6 h7 h8 =
    ground (arith, is_continuation_range b, is_continuation_range c)

valid_four :
    (a b c d : ℕ) (rest : Bytes)
    → 0xf0 ≤ a
    → a < 0xf5
    → 0x80 ≤ b
    → b < 0xc0
    → 0x80 ≤ c
    → c < 0xc0
    → 0x80 ≤ d
    → d < 0xc0
    → (a ≡ 0xf0 → 0x90 ≤ b)
    → (a ≡ 0xf4 → b < 0x90)
    → valid_utf8_length (a ∷ b ∷ c ∷ d ∷ rest) ≡ 4
unfolding valid_utf8_length
valid_four a b c d rest h1 h2 h3 h4 h5 h6 h7 h8 h9 h10 =
    rw
      (
        in_range-is_continuation b h3 h4,
        in_range-is_continuation c h5 h6,
        in_range-is_continuation d h7 h8,
      )
      (ground arith)

valid_utf8_length-encode :
    (cp : ℕ) (rest : Bytes)
    → 0x80 ≤ cp
    → IsScalar cp
    → valid_utf8_length (encode cp ++ rest) ≡ length (encode cp)
unfolding encode
valid_utf8_length-encode cp rest lo h = ground (
  arith,
  valid_two (0xc0 + cp / 0x40) (0x80 + cp % 0x40) rest,
  valid_three (0xe0 + cp / 0x1000) (0x80 + cp / 0x40 % 0x40) (0x80 + cp % 0x40) rest,
  valid_four (0xf0 + cp / 0x40000) (0x80 + cp / 0x1000 % 0x40) (0x80 + cp / 0x40 % 0x40)
      (0x80 + cp % 0x40) rest,
)

get_or-IsByte : (s : Bytes) (i : ℕ) → IsByteString s → IsByte (get_or s i 0)
get_or-IsByte [] i h = omega arith
get_or-IsByte (x ∷ s) zero h = h.0
get_or-IsByte (x ∷ s) (suc i) h = get_or-IsByte s i h.1

-- What an accepted sequence looks like, one range of lead bytes at a time.
module _ (a : ℕ) (s : Bytes) (bytes : IsByteString s)
    (accepted : valid_utf8_length (a ∷ s) ≢ 0) where
  lead_bounds : (0xc2 ≤ a) × (a < 0xf5)
  unfolding valid_utf8_length
  lead_bounds = ground arith

  two_shape :
      a < 0xe0
      → (2 ≤ length (a ∷ s))
        × (0x80 ≤ get_or s 0 0)
        × (get_or s 0 0 < 0xc0)
        × (valid_utf8_length (a ∷ s) ≡ 2)
  unfolding valid_utf8_length
  two_shape h = ground (arith, is_continuation-in_range (get_or s 0 0) (get_or-IsByte s 0 bytes))

  three_shape :
      0xe0 ≤ a
      → a < 0xf0
      → (3 ≤ length (a ∷ s))
        × (0x80 ≤ get_or s 0 0)
        × (get_or s 0 0 < 0xc0)
        × (0x80 ≤ get_or s 1 0)
        × (get_or s 1 0 < 0xc0)
        × ((a ≢ 0xe0) ⊎ (0xa0 ≤ get_or s 0 0))
        × ((a ≢ 0xed) ⊎ (get_or s 0 0 < 0xa0))
        × (valid_utf8_length (a ∷ s) ≡ 3)
  unfolding valid_utf8_length
  three_shape h k = ground (
    arith,
    is_continuation-in_range (get_or s 0 0) (get_or-IsByte s 0 bytes),
    is_continuation-in_range (get_or s 1 0) (get_or-IsByte s 1 bytes),
  )

  four_first :
      a ≡ 0xf0
      → (4 ≤ length (a ∷ s))
        × (0x90 ≤ get_or s 0 0)
        × (get_or s 0 0 < 0xc0)
        × (is_continuation (get_or s 1 0) ≡ true)
        × (is_continuation (get_or s 2 0) ≡ true)
        × (valid_utf8_length (a ∷ s) ≡ 4)
  unfolding valid_utf8_length
  four_first h = ground arith

  four_middle :
      0xf1 ≤ a
      → a < 0xf4
      → (4 ≤ length (a ∷ s))
        × (is_continuation (get_or s 0 0) ≡ true)
        × (is_continuation (get_or s 1 0) ≡ true)
        × (is_continuation (get_or s 2 0) ≡ true)
        × (valid_utf8_length (a ∷ s) ≡ 4)
  unfolding valid_utf8_length
  four_middle h k = ground arith

  four_last :
      a ≡ 0xf4
      → (4 ≤ length (a ∷ s))
        × (0x80 ≤ get_or s 0 0)
        × (get_or s 0 0 < 0x90)
        × (is_continuation (get_or s 1 0) ≡ true)
        × (is_continuation (get_or s 2 0) ≡ true)
        × (valid_utf8_length (a ∷ s) ≡ 4)
  unfolding valid_utf8_length
  four_last h = ground arith

  four_shape :
      0xf0 ≤ a
      → (4 ≤ length (a ∷ s))
        × (0x80 ≤ get_or s 0 0)
        × (get_or s 0 0 < 0xc0)
        × (0x80 ≤ get_or s 1 0)
        × (get_or s 1 0 < 0xc0)
        × (0x80 ≤ get_or s 2 0)
        × (get_or s 2 0 < 0xc0)
        × ((a ≢ 0xf0) ⊎ (0x90 ≤ get_or s 0 0))
        × ((a ≢ 0xf4) ⊎ (get_or s 0 0 < 0x90))
        × (valid_utf8_length (a ∷ s) ≡ 4)
  four_shape h = ground (
    arith,
    lead_bounds,
    four_first,
    four_middle,
    four_last,
    is_continuation-in_range (get_or s 0 0) (get_or-IsByte s 0 bytes),
    is_continuation-in_range (get_or s 1 0) (get_or-IsByte s 1 bytes),
    is_continuation-in_range (get_or s 2 0) (get_or-IsByte s 2 bytes),
  )

-- The prefix that is accepted is the encoding of a scalar value.
abbrev pub IsEncoded : Bytes → ℕ → Type 0
IsEncoded s n =
    (cp : ℕ) × (0x80 ≤ cp) × IsScalar cp × (take n s ≡ encode cp) × (n ≡ length (encode cp))

accepted_two :
    (a : ℕ) (s : Bytes)
    → IsByteString s
    → a < 0xe0
    → valid_utf8_length (a ∷ s) ≢ 0
    → IsEncoded (a ∷ s) (valid_utf8_length (a ∷ s))
unfolding encode
accepted_two a [] bytes h k = absurd (omega (arith, two_shape a [] bytes k h))
accepted_two a (b ∷ s) bytes h k =
    let shape = two_shape a (b ∷ s) bytes k h in
    let lead = lead_bounds a (b ∷ s) bytes k in
    rw shape.3
      ((a - 0xc0) * 0x40 + (b - 0x80), omega arith, inl (omega arith), ground arith, ground arith)

accepted_three :
    (a : ℕ) (s : Bytes)
    → IsByteString s
    → 0xe0 ≤ a
    → a < 0xf0
    → valid_utf8_length (a ∷ s) ≢ 0
    → IsEncoded (a ∷ s) (valid_utf8_length (a ∷ s))
unfolding encode
accepted_three a [] bytes h h' k = absurd (omega (arith, three_shape a [] bytes k h h'))
accepted_three a (b ∷ []) bytes h h' k = absurd (omega (arith, three_shape a (b ∷ []) bytes k h h'))
accepted_three a (b ∷ c ∷ s) bytes h h' k =
    let shape = three_shape a (b ∷ c ∷ s) bytes k h h' in
    rw shape.7 (
      (a - 0xe0) * 0x1000 + (b - 0x80) * 0x40 + (c - 0x80),
      omega (arith, shape),
      omega (arith, shape),
      ground (arith, shape),
      ground (arith, shape),
    )

accepted_four :
    (a : ℕ) (s : Bytes)
    → IsByteString s
    → 0xf0 ≤ a
    → valid_utf8_length (a ∷ s) ≢ 0
    → IsEncoded (a ∷ s) (valid_utf8_length (a ∷ s))
unfolding encode
accepted_four a [] bytes h k = absurd (omega (arith, four_shape a [] bytes k h))
accepted_four a (b ∷ []) bytes h k = absurd (omega (arith, four_shape a (b ∷ []) bytes k h))
accepted_four a (b ∷ c ∷ []) bytes h k = absurd (omega (arith, four_shape a (b ∷ c ∷ []) bytes k h))
accepted_four a (b ∷ c ∷ d ∷ s) bytes h k =
    let shape = four_shape a (b ∷ c ∷ d ∷ s) bytes k h in
    let lead = lead_bounds a (b ∷ c ∷ d ∷ s) bytes k in
    rw shape.9 (
      (a - 0xf0) * 0x40000 + (b - 0x80) * 0x1000 + (c - 0x80) * 0x40 + (d - 0x80),
      omega (arith, shape),
      omega (arith, shape),
      ground (arith, shape),
      ground (arith, shape),
    )

pub valid_utf8_length-IsEncoded :
    (a : ℕ) (s : Bytes)
    → IsByteString (a ∷ s)
    → valid_utf8_length (a ∷ s) ≢ 0
    → IsEncoded (a ∷ s) (valid_utf8_length (a ∷ s))
valid_utf8_length-IsEncoded a s bytes k = elim (Bool-cases (ltb a 0xe0)) [
  | inl e ↦ accepted_two a s bytes.1 (ltb→lt a 0xe0 e) k
  | inr e ↦ elim (Bool-cases (ltb a 0xf0)) [
    | inl f ↦ accepted_three a s bytes.1 (ground arith) (ltb→lt a 0xf0 f) k
    | inr f ↦ accepted_four a s bytes.1 (ground arith) k
  ]
]

-- On bytes, `ValidUtf8Length` returns a positive number exactly when that many bytes are the UTF-8
-- form of a scalar value beyond ASCII.
pub valid_utf8_length_exact :
    (a : ℕ) (s : Bytes) (n : ℕ)
    → IsByteString (a ∷ s)
    → n ≢ 0
    → (valid_utf8_length (a ∷ s) ≡ n) ↔ IsEncoded (a ∷ s) n
valid_utf8_length_exact a s n bytes pos = (
  λ e.
      subst (λ m. IsEncoded (a ∷ s) m) e
        (valid_utf8_length-IsEncoded a s bytes (λ z. pos (sym e ∙ z))),
  λ (cp, lo, scalar, same, size).
      ap valid_utf8_length (sym (take-append-drop n (a ∷ s)))
      ∙ rw same (valid_utf8_length-encode cp (drop n (a ∷ s)) lo scalar)
      ∙ sym size,
)
