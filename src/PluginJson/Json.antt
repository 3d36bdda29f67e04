-- ===== src/PluginJson/Json.antt =====
-- RFC 8259, without white space: which bytes spell which JSON value. The texts in a value are the
-- bytes that the plugin has; what they denote in JSON is their repaired form. This is what
-- src/PluginJson.cpp has to write, where it writes records.
use co_bra_for_binary_ninja.Prelude.{
  ℕ, ◌+◌, ◌*◌, ◌<◌, Bool, true, false, [], ◌∷◌, ◌++◌, Bytes, codes,
}
use co_bra_for_binary_ninja.PluginJson.Grammar.{Denotes}
use co_bra_for_binary_ninja.PluginJson.EscapeSound.{Repairs}

mutual
  pub data Json : Type 0 where
    text : Bytes → Json
    number : ℕ → Json
    boolean : Bool → Json
    null : Json
    array : Items → Json
    object : Members → Json

  pub data Items : Type 0 where
    no_items : Items
    item : Json → Items → Items

  pub data Members : Type 0 where
    no_members : Members
    member : Bytes → Json → Members → Members

-- A number in decimal, without leading zeros.
pub data Numeral : ℕ → Bytes → Type 0 where
  digit : (d : ℕ) → d < 10 → Numeral d ((b'0' + d) ∷ [])
  shift :
      (n d : ℕ) {s : Bytes}
      → 0 < n
      → d < 10
      → Numeral n s
      → Numeral (n * 10 + d) (s ++ ((b'0' + d) ∷ []))

-- The contents of a string literal for these bytes.
abbrev pub Quoted : Bytes → Bytes → Type 0
Quoted v s = (t : Bytes) × Repairs v t × Denotes s t

-- `Spells v s r`: the bytes `s` begin with a spelling of `v`, and `r` follows it.
mutual
  pub data Spells : Json → Bytes → Bytes → Type 0 where
    text_spelled : (v s r : Bytes) → Quoted v s → Spells (text v) (b'"' ∷ (s ++ (b'"' ∷ r))) r
    number_spelled : (n : ℕ) (s r : Bytes) → Numeral n s → Spells (number n) (s ++ r) r
    true_spelled : (r : Bytes) → Spells (boolean true) (codes "true" ++ r) r
    false_spelled : (r : Bytes) → Spells (boolean false) (codes "false" ++ r) r
    null_spelled : (r : Bytes) → Spells null (codes "null" ++ r) r
    array_spelled : (is : Items) (s r : Bytes) → SpellsItems is s r → Spells (array is) (b'[' ∷ s) r
    object_spelled :
        (ms : Members) (s r : Bytes) → SpellsMembers ms s r → Spells (object ms) (b'{' ∷ s) r

  -- The items of an array, and its end.
  pub data SpellsItems : Items → Bytes → Bytes → Type 0 where
    empty_array : (r : Bytes) → SpellsItems no_items (b']' ∷ r) r
    last_item : (v : Json) (s r : Bytes) → Spells v s (b']' ∷ r) → SpellsItems (item v no_items) s r
    next_item :
        (v w : Json) (is : Items) (s t r : Bytes)
        → Spells v s (b',' ∷ t)
        → SpellsItems (item w is) t r
        → SpellsItems (item v (item w is)) s r

  -- The members of an object, and its end.
  pub data SpellsMembers : Members → Bytes → Bytes → Type 0 where
    empty_object : (r : Bytes) → SpellsMembers no_members (b'}' ∷ r) r
    last_member :
        (k : Bytes) (v : Json) (s t r : Bytes)
        → Spells (text k) s (b':' ∷ t)
        → Spells v t (b'}' ∷ r)
        → SpellsMembers (member k v no_members) s r
    next_member :
        (k l : Bytes) (v w : Json) (ms : Members) (s t u r : Bytes)
        → Spells (text k) s (b':' ∷ t)
        → Spells v t (b',' ∷ u)
        → SpellsMembers (member l w ms) u r
        → SpellsMembers (member k v (member l w ms)) s r
