-- ===== src/PluginJson/Escape.antt =====
-- src/PluginJson.cpp: `AppendHexByte`, `IsContinuation`, `ValidUtf8Length`, `EscapeJsonString`.
-- A byte string is a list of numbers below 256; a suffix stands for the view from an offset on.
use co_bra_for_binary_ninja.Prelude.{
  ℕ, zero, suc, ◌-◌, ◌/◌, ◌^◌, bit_and, ◌≡◌, refl, Bool, ◌&&◌, ◌||◌, [], ◌∷◌, ◌++◌, if◌then◌else◌,
  ltb, leb, ◌==◌, length, get_or, take, Bytes, codes,
}

abbrev pub k_hex : Bytes
k_hex = codes "0123456789abcdef"

-- What `AppendHexByte` appends: `\u00` and two digits.
unfoldable pub append_hex_byte : ℕ → Bytes
append_hex_byte value =
    codes "\\u00"
    ++ (get_or k_hex (bit_and (value / 2 ^ 4) 0x0f) 0 ∷ get_or k_hex (bit_and value 0x0f) 0 ∷ [])

unfoldable pub is_continuation : ℕ → Bool
is_continuation value = bit_and value 0xc0 == 0x80

-- `value` is the view from `offset` on; it is not empty where the code calls this.
unfoldable pub valid_utf8_length : Bytes → ℕ
valid_utf8_length value =
    let at = λ (index : ℕ). get_or value index 0 in
    let first = at 0 in
    let remaining = length value in
    if leb 0xc2 first && leb first 0xdf
    then (if leb 2 remaining && is_continuation (at 1) then 2 else 0)
    else if first == 0xe0
    then (if leb 3 remaining && (leb 0xa0 (at 1) && (leb (at 1) 0xbf && is_continuation (at 2)))
        then 3
        else 0)
    else if (leb 0xe1 first && leb first 0xec) || (leb 0xee first && leb first 0xef)
    then (if leb 3 remaining && (is_continuation (at 1) && is_continuation (at 2)) then 3 else 0)
    else if first == 0xed
    then (if leb 3 remaining && (leb 0x80 (at 1) && (leb (at 1) 0x9f && is_continuation (at 2)))
        then 3
        else 0)
    else if first == 0xf0
    then (if leb 4 remaining
          && (leb 0x90 (at 1)
              && (leb (at 1) 0xbf && (is_continuation (at 2) && is_continuation (at 3))))
        then 4
        else 0)
    else if leb 0xf1 first && leb first 0xf3
    then (if leb 4 remaining
          && (is_continuation (at 1) && (is_continuation (at 2) && is_continuation (at 3)))
        then 4
        else 0)
    else if first == 0xf4
    then (if leb 4 remaining
          && (leb 0x80 (at 1)
              && (leb (at 1) 0x8f && (is_continuation (at 2) && is_continuation (at 3))))
        then 4
        else 0)
    else 0

-- One round of the loop at a byte and what follows it: the bytes appended, and by how much the
-- index grows.
unfoldable pub escape_round : ℕ → Bytes → Bytes × ℕ
escape_round byte rest =
    if byte == b'"'
    then (codes "\\\"", 1)
    else if byte == b'\\'
    then (codes "\\\\", 1)
    else if byte == 8
    then (codes "\\b", 1)
    else if byte == 12
    then (codes "\\f", 1)
    else if byte == 10
    then (codes "\\n", 1)
    else if byte == 13
    then (codes "\\r", 1)
    else if byte == 9
    then (codes "\\t", 1)
    else if ltb byte 0x20
    then (append_hex_byte byte, 1)
    else if ltb byte 0x80
    then (byte ∷ [], 1)
    else let utf8_length = valid_utf8_length (byte ∷ rest) in
      if utf8_length == 0
      then (append_hex_byte byte, 1)
      else (take utf8_length (byte ∷ rest), utf8_length)

-- The loop: `pending` counts the bytes up to the next index, which the last round has consumed.
unfoldable pub escape_loop : ℕ → Bytes → Bytes
escape_loop pending [] = []
escape_loop (suc pending) (byte ∷ rest) = escape_loop pending rest
escape_loop zero (byte ∷ rest) =
    let (chunk, advance) = escape_round byte rest in chunk ++ escape_loop (advance - 1) rest

unfoldable pub escape_json_string : Bytes → Bytes
escape_json_string value = escape_loop 0 value

control_and_malformed :
    escape_json_string (b'a' ∷ 10 ∷ 1 ∷ 0xc3 ∷ 0xa9 ∷ 0xff ∷ b'"' ∷ [])
    ≡ codes "a\\n\\u0001" ++ (0xc3 ∷ 0xa9 ∷ codes "\\u00ff\\\"")
unfolding escape_json_string escape_loop escape_round valid_utf8_length is_continuation
    append_hex_byte
control_and_malformed = refl
