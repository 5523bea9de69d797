-- ===== src/Policy/Canonical.antt =====
-- `write_canonical` and `to_hex` of crates/policy/src/lib.rs.
pub mod Order
pub mod Hex
pub mod Stable
use mcpglass.Base.{
  get_or, ℕ, zero, suc, ◌+◌, ◌/◌, ◌%◌, List, [], ◌∷◌, ◌++◌, Bool, true, false, ◌||◌, ◌&&◌,
  if◌then◌else◌, ltb, ◌==◌,
}
use mcpglass.Base.Text.{Text, Bytes, codes}
use mcpglass.Json.{
  Serde, Value, null, bool, number, string, array, object, Items, nil, cons, Fields, end, field,
}

-- The order of Rust's `String`: byte by byte, which is code point by code point.
unfoldable pub text_le : Text → Text → Bool
text_le [] ys = true
text_le (x ∷ xs) [] = false
text_le (x ∷ xs) (y ∷ ys) = ltb x y || (x == y && text_le xs ys)

-- A key with the canonical text of its value.
abbrev pub Entry : Type 0
Entry = Text × Text

unfoldable pub insert_key : Entry → List Entry → List Entry
insert_key e [] = e ∷ []
insert_key e (f ∷ fs) = if text_le e.0 f.0 then e ∷ f ∷ fs else f ∷ insert_key e fs

-- `keys.sort()`, where each key keeps what `m[k]` reads for it.
unfoldable pub sort_keys : List Entry → List Entry
sort_keys [] = []
sort_keys (e ∷ es) = insert_key e (sort_keys es)

module _ (serde : Serde) where
  -- `to_string(k)`, a colon and the value.
  unfoldable pub write_entry : Entry → Text
  write_entry e = serde.to_string (string e.0) ++ (codes ":" ++ e.1)

  -- A comma in front of every entry but the first.
  unfoldable pub write_entries : List Entry → Text
  write_entries [] = []
  write_entries (e ∷ []) = write_entry e
  write_entries (e ∷ f ∷ es) = write_entry e ++ (codes "," ++ write_entries (f ∷ es))

  unfoldable mutual
    pub write_canonical : Value → Text
    write_canonical null = serde.to_string null
    write_canonical (bool b) = serde.to_string (bool b)
    write_canonical (number n) = serde.to_string (number n)
    write_canonical (string s) = serde.to_string (string s)
    write_canonical (array xs) = codes "[" ++ (write_items xs ++ codes "]")
    write_canonical (object fs) =
        codes "{" ++ (write_entries (sort_keys (write_fields fs)) ++ codes "}")

    -- The elements with a comma in front of every one but the first.
    pub write_items : Items → Text
    write_items nil = []
    write_items (cons v vs) = write_canonical v ++ write_more vs

    pub write_more : Items → Text
    write_more nil = []
    write_more (cons v vs) = codes "," ++ (write_canonical v ++ write_more vs)

    pub write_fields : Fields → List Entry
    write_fields end = []
    write_fields (field k v fs) = (k, write_canonical v) ∷ write_fields fs

-- `HEX[i]`, where `i` is below 16.
unfoldable pub hex_digit : ℕ → ℕ
hex_digit n = get_or (codes "0123456789abcdef") n b'0'

-- `b >> 4` and `b & 0x0f`.
unfoldable pub to_hex : Bytes → Text
to_hex [] = []
to_hex (b ∷ bs) = hex_digit (b / 16) ∷ hex_digit (b % 16) ∷ to_hex bs
