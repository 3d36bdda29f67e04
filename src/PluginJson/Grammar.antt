-- ===== src/PluginJson/Grammar.antt =====
-- RFC 8259, section 7: which bytes between two quotation marks denote which text. The text is a
-- byte string too, in UTF-8. This is what src/PluginJson.cpp has to write.
use co_bra_for_binary_ninja.Prelude.{
  ℕ, ◌+◌, ◌-◌, ◌*◌, ◌≤◌, ◌<◌, ◌≡◌, ◌≢◌, ◌⊎◌, [], ◌∷◌, ◌++◌, Bytes,
}
use co_bra_for_binary_ninja.PluginJson.Utf8.{IsScalar, encode}

-- `\e` stands for the byte `c`.
pub data Short : ℕ → ℕ → Type 0 where
  quote : Short b'"' b'"'
  backslash : Short b'\\' b'\\'
  slash : Short b'/' b'/'
  backspace : Short b'b' 8
  form_feed : Short b'f' 12
  line_feed : Short b'n' 10
  carriage_return : Short b'r' 13
  tab : Short b't' 9

abbrev pub HexDigit : ℕ → ℕ → Type 0
HexDigit h v =
    ((v < 10) × (h ≡ b'0' + v))
    ⊎ ((10 ≤ v) × (v < 16) × ((h ≡ b'a' + v - 10) ⊎ (h ≡ b'A' + v - 10)))

-- One character of a string.
pub data Piece : Bytes → Bytes → Type 0 where
  plain : (c : ℕ) → 0x20 ≤ c → c < 0x80 → c ≢ b'"' → c ≢ b'\\' → Piece (c ∷ []) (c ∷ [])
  wide : (cp : ℕ) → 0x80 ≤ cp → IsScalar cp → Piece (encode cp) (encode cp)
  short : {e c : ℕ} → Short e c → Piece (b'\\' ∷ e ∷ []) (c ∷ [])
  unicode :
      {d1 d2 d3 d4 : ℕ} (v1 v2 v3 v4 : ℕ)
      → HexDigit d1 v1
      → HexDigit d2 v2
      → HexDigit d3 v3
      → HexDigit d4 v4
      → IsScalar (v1 * 0x1000 + v2 * 0x100 + v3 * 0x10 + v4)
      → Piece
          (b'\\' ∷ b'u' ∷ d1 ∷ d2 ∷ d3 ∷ d4 ∷ [])
          (encode (v1 * 0x1000 + v2 * 0x100 + v3 * 0x10 + v4))

pub data Denotes : Bytes → Bytes → Type 0 where
  done : Denotes [] []
  next : {c d s t : Bytes} → Piece c d → Denotes s t → Denotes (c ++ s) (d ++ t)
