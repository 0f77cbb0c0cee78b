-- ===== src/Db/Bytes.antt =====
-- src/common/DbUtils.js: hexadecimal texts and byte arrays. A byte array is a list of numbers.
use Prim.Native.Char.{Char, code}
use enigma_p2p.Base.{
  ℕ, ◌+◌, ◌-◌, ◌*◌, ◌/◌, ◌%◌, String, Option, none, some, List, [], ◌∷◌, ◌++◌, ltb, leb, ◌==◌,
  if◌then◌else◌, ◌&&◌, length, take, drop, ◌>>=◌,
}
use enigma_p2p.Base.Text.{remove0x}

abbrev digit_table : List (ℕ × Char)
digit_table =
    (0, "0")
    ∷ (1, "1")
    ∷ (2, "2")
    ∷ (3, "3")
    ∷ (4, "4")
    ∷ (5, "5")
    ∷ (6, "6")
    ∷ (7, "7")
    ∷ (8, "8")
    ∷ (9, "9")
    ∷ (10, "a")
    ∷ (11, "b")
    ∷ (12, "c")
    ∷ (13, "d")
    ∷ (14, "e")
    ∷ []

lookup_digit : ℕ → List (ℕ × Char) → Char
lookup_digit n [] = "f"
lookup_digit n ((m, c) ∷ table) = if n == m then c else lookup_digit n table

-- The small hexadecimal digit of a number below 16.
unfoldable pub hex_digit : ℕ → Char
unfolding lookup_digit
hex_digit n = lookup_digit n digit_table

-- Two digits for each byte, of which `byte & 0xff` is taken.
unfoldable pub to_hex_string : List ℕ → String
to_hex_string [] = String.[]
to_hex_string (b ∷ bs) =
    String.◌∷◌ (hex_digit (b % 256 / 16)) (String.◌∷◌ (hex_digit (b % 16)) (to_hex_string bs))

-- The value of a hexadecimal digit, small or capital.
unfoldable pub nibble : ℕ → Option ℕ
nibble c =
    if leb b'0' c && leb c b'9'
    then some (c - b'0')
    else if leb b'a' c && leb c b'f'
    then some (c - b'a' + 10)
    else if leb b'A' c && leb c b'F'
    then some (c - b'A' + 10)
    else none

-- `Buffer.from(hex, "hex")`: pairs of digits, up to the first pair that is none.
unfoldable pub decode_hex : String → List ℕ
decode_hex (String.◌∷◌ c (String.◌∷◌ d s)) =
    let rest = decode_hex s in
    elim (nibble (code c)) [
      | none ↦ []
      | some hi ↦ elim (nibble (code d)) [ none ↦ [] | some lo ↦ (hi * 16 + lo) ∷ rest ]
    ]
decode_hex _ = []

unfoldable pub hex_to_bytes : String → List ℕ
unfolding remove0x decode_hex
hex_to_bytes hex = decode_hex (remove0x hex)

-- The four bytes of a number, the high one first; `none` is the error for a number beyond 32 bits.
unfoldable pub int_to_4_bytes : ℕ → Option (List ℕ)
int_to_4_bytes n =
    if ltb 4294967295 n
    then none
    else some (n / 16777216 % 256 ∷ n / 65536 % 256 ∷ n / 256 % 256 ∷ n % 256 ∷ [])

-- `readUInt32BE(0)`; `none` is the `RangeError` for fewer than four bytes.
unfoldable pub bytes_to_int : List ℕ → Option ℕ
bytes_to_int (a ∷ b ∷ c ∷ d ∷ rest) =
    some (a % 256 * 16777216 + b % 256 * 65536 + c % 256 * 256 + d % 256)
bytes_to_int _ = none

-- A key of a delta: the address, then the index in four bytes.
unfoldable pub delta_key_bytes_to_tuple : List ℕ → Option (String × ℕ)
delta_key_bytes_to_tuple key = do
  index ← bytes_to_int (drop (length key - 4) key)
  some (to_hex_string (take (length key - 4) key), index)

-- With no index, or with `undefined`, the key is the address alone.
unfoldable pub to_bytes_key : List ℕ → Option ℕ → Option (List ℕ)
unfolding int_to_4_bytes
to_bytes_key address none = some address
to_bytes_key address (some index) = do bytes ← int_to_4_bytes index; some (address ++ bytes)
