-- ===== src/Db/Codec.antt =====
-- Round trips of DbUtils.js and DbKey.js.
use Prim.Native.Char.{Char, code}
use enigma_p2p.Base.{
  ℕ, zero, suc, ◌+◌, ◌*◌, ◌/◌, ◌%◌, ◌≤◌, ◌⊎◌, inl, inr, if◌then◌else◌, ◌<◌, String, ◌≡◌, refl, ap,
  ◌∙◌, Bool, true, false, not, Option, none, some, List, [], ◌∷◌, ◌==◌, arith, All,
}
use enigma_p2p.Base.Text.{remove0x}
use enigma_p2p.Db.Bytes.{
  hex_digit, to_hex_string, nibble, decode_hex, hex_to_bytes, int_to_4_bytes, bytes_to_int,
}

-- The test passes for every number from 0 to `last`.
passes_upto : (test : ℕ → Bool) (last : ℕ) → Bool
passes_upto test zero = test 0
passes_upto test (suc last) =
    let before = passes_upto test last in if test (suc last) then before else false

passes_upto-apply :
    (test : ℕ → Bool) (last k : ℕ) → k ≤ last → passes_upto test last ≡ true → test k ≡ true
unfolding passes_upto
passes_upto-apply test zero k bound h = let e : k ≡ 0 = omega arith in rw e h
passes_upto-apply test (suc last) k bound h = elim (k_cases k last bound) [
  | inl top ↦ rw top (ground arith)
  | inr lower ↦ passes_upto-apply test last k lower (ground arith)
]
  where
    k_cases : (k last : ℕ) → k ≤ suc last → (k ≡ suc last) ⊎ (k ≤ last)
    k_cases k last b = ground arith

abbrev is_value : ℕ → Option ℕ → Bool
is_value n none = false
is_value n (some m) = n == m

digit_round : (n : ℕ) → n < 16 → nibble (code (hex_digit n)) ≡ some n
digit_round n h = value (nibble (code (hex_digit n))) (
    passes_upto-apply (λ k. is_value k (nibble (code (hex_digit k)))) 15 n (omega arith)
      (unfold passes_upto nibble hex_digit in refl))
  where
    value : (o : Option ℕ) → is_value n o ≡ true → o ≡ some n
    value none e = cc
    value (some m) e = ground arith

abbrev pub IsBytes : List ℕ → Type 0
IsBytes bs = All (λ b. b < 256) bs

byte_digits : (b : ℕ) → b < 256 → b % 256 / 16 * 16 + b % 16 ≡ b
byte_digits b h = omega arith

-- A pair of digits is read, and the rest after it.
decode_pair :
    (hi lo : ℕ) (c d : Char) (s : String)
    → nibble (code c) ≡ some hi
    → nibble (code d) ≡ some lo
    → decode_hex (String.◌∷◌ c (String.◌∷◌ d s)) ≡ (hi * 16 + lo) ∷ decode_hex s
unfolding decode_hex
decode_pair hi lo c d s p q = rw (p, decode_hex) (rw q refl)

decode_hex-to_hex_string : (bs : List ℕ) → IsBytes bs → decode_hex (to_hex_string bs) ≡ bs
unfolding to_hex_string
decode_hex-to_hex_string [] h = unfold decode_hex in refl
decode_hex-to_hex_string (b ∷ bs) h =
    decode_pair (b % 256 / 16) (b % 16) (hex_digit (b % 256 / 16)) (hex_digit (b % 16))
      (to_hex_string bs) (digit_round (b % 256 / 16) (omega arith))
      (digit_round (b % 16) (omega arith))
    ∙ (ap (λ n. n ∷ decode_hex (to_hex_string bs)) (byte_digits b h.0)
        ∙ ap (λ l. b ∷ l) (decode_hex-to_hex_string bs h.1))

digit_is_no_x : (n : ℕ) → n < 16 → (code (hex_digit n) == b'x') ≡ false
digit_is_no_x n h = ground (
  arith,
  passes_upto-apply (λ k. not (code (hex_digit k) == b'x')) 15 n (omega arith)
      (unfold passes_upto hex_digit in refl),
)

remove0x_pair :
    (c d : Char) (s : String)
    → (code d == b'x') ≡ false
    → remove0x (String.◌∷◌ c (String.◌∷◌ d s)) ≡ String.◌∷◌ c (String.◌∷◌ d s)
unfolding remove0x
remove0x_pair c d s e = ground arith

-- No text of digits begins with `0x`.
remove0x-to_hex_string : (bs : List ℕ) → remove0x (to_hex_string bs) ≡ to_hex_string bs
unfolding to_hex_string
remove0x-to_hex_string [] = unfold remove0x in refl
remove0x-to_hex_string (b ∷ bs) =
    remove0x_pair (hex_digit (b % 256 / 16)) (hex_digit (b % 16)) (to_hex_string bs)
      (digit_is_no_x (b % 16) (omega arith))

pub hex_to_bytes-to_hex_string : (bs : List ℕ) → IsBytes bs → hex_to_bytes (to_hex_string bs) ≡ bs
unfolding hex_to_bytes
hex_to_bytes-to_hex_string bs h =
    ap decode_hex (remove0x-to_hex_string bs) ∙ decode_hex-to_hex_string bs h

-- The four bytes of an index below 2 ^ 32, high first.
abbrev pub bytes4 : ℕ → List ℕ
bytes4 n = n / 16777216 % 256 ∷ n / 65536 % 256 ∷ n / 256 % 256 ∷ n % 256 ∷ []

pub int_to_4_bytes-bytes4 : (n : ℕ) → n ≤ 4294967295 → int_to_4_bytes n ≡ some (bytes4 n)
unfolding int_to_4_bytes
int_to_4_bytes-bytes4 n h = ground arith

pub bytes_to_int-bytes4 : (n : ℕ) → n ≤ 4294967295 → bytes_to_int (bytes4 n) ≡ some n
unfolding bytes_to_int
bytes_to_int-bytes4 n h = ap some (omega arith)
