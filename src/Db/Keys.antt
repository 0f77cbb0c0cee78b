-- ===== src/Db/Keys.antt =====
-- Delta keys of DbKey.js: back and forth between their two forms, and what an index of 0 does.

use enigma_p2p.Base.{
  ℕ, ◌-◌, ◌≤◌, ◌<◌, String, ◌≡◌, ◌≢◌, refl, ap, true, some, List, [], ◌∷◌, ◌++◌, ◌==◌, length, take,
  drop, ◌>>=◌, arith, length-append, eq_refl, eq_iff, is_some, ◌↔◌,
}
use enigma_p2p.Base.Text.{remove0x}
use enigma_p2p.Db.Bytes.{to_hex_string, delta_key_bytes_to_tuple, to_bytes_key}
use enigma_p2p.Db.Key.{
  DbKey, new_key, from_contract_addr, from_delta_tuple, from_delta_bytes, equals,
}
use enigma_p2p.Db.Codec.{
  IsBytes, hex_to_bytes-to_hex_string, bytes4, int_to_4_bytes-bytes4, bytes_to_int-bytes4,
}

from_delta_tuple_lem :
    (bs : List ℕ) (i : ℕ)
    → IsBytes bs
    → i ≤ 4294967295
    → from_delta_tuple (to_hex_string bs) i
      ≡ some (new_key (bs ++ bytes4 i) (to_hex_string bs) (some i))
unfolding from_delta_tuple to_bytes_key
from_delta_tuple_lem bs i hb hi =
    rw (hex_to_bytes-to_hex_string bs hb, int_to_4_bytes-bytes4 i hi) refl

append-length : (bs cs : List ℕ) → length (bs ++ cs) - length cs ≡ length bs
append-length bs cs = omega (arith, length-append bs cs)

take_all : (bs cs : List ℕ) → take (length bs) (bs ++ cs) ≡ bs
take_all [] cs = refl
take_all (b ∷ bs) cs = ap (λ l. b ∷ l) (take_all bs cs)

drop_all : (bs cs : List ℕ) → drop (length bs) (bs ++ cs) ≡ cs
drop_all [] cs = refl
drop_all (b ∷ bs) cs = drop_all bs cs

delta_key_bytes_to_tuple_lem :
    (bs : List ℕ) (i : ℕ)
    → i ≤ 4294967295
    → delta_key_bytes_to_tuple (bs ++ bytes4 i) ≡ some (to_hex_string bs, i)
unfolding delta_key_bytes_to_tuple
delta_key_bytes_to_tuple_lem bs i hi =
    rw (append-length bs (bytes4 i), take_all bs (bytes4 i), drop_all bs (bytes4 i))
      (ap (λ o. o >>= (λ index. some (to_hex_string bs, index))) (bytes_to_int-bytes4 i hi))

from_delta_bytes_lem :
    (bs : List ℕ) (i : ℕ)
    → i ≤ 4294967295
    → from_delta_bytes (bs ++ bytes4 i)
      ≡ some (new_key (bs ++ bytes4 i) (to_hex_string bs) (some i))
unfolding from_delta_bytes
from_delta_bytes_lem bs i hi = rw (delta_key_bytes_to_tuple_lem bs i hi) refl

-- A delta key survives its byte form: the key of an address in small hexadecimal digits, whose bytes
-- are below 256, and an index below 2 ^ 32 is built without an error, and `from_delta_bytes` of its
-- bytes is the same key.
pub delta_key-round_trip :
    (bs : List ℕ) (i : ℕ)
    → IsBytes bs
    → i ≤ 4294967295
    → ((from_delta_tuple (to_hex_string bs) i >>= (λ k. from_delta_bytes k.byte_key))
        ≡ from_delta_tuple (to_hex_string bs) i)
      × (is_some (from_delta_tuple (to_hex_string bs) i) ≡ true)
unfolding new_key
delta_key-round_trip bs i hb hi =
    rw (from_delta_tuple_lem bs i hb hi) (from_delta_bytes_lem bs i hi, refl)

zero_key-equals :
    (bs : List ℕ)
    → equals
        (new_key (bs ++ bytes4 0) (to_hex_string bs) (some 0))
        (from_contract_addr (to_hex_string bs))
      ≡ true
unfolding equals from_contract_addr new_key
zero_key-equals bs = eq_refl (remove0x (to_hex_string bs))

zero_key-differs :
    (bs : List ℕ)
    → IsBytes bs
    → (new_key (bs ++ bytes4 0) (to_hex_string bs) (some 0)).byte_key
      ≢ (from_contract_addr (to_hex_string bs)).byte_key
unfolding from_contract_addr new_key
zero_key-differs bs hb e =
    omega (
      arith,
      ap length e,
      ap length (hex_to_bytes-to_hex_string bs hb),
      length-append bs (bytes4 0),
    )

-- An index of 0 makes a contract key: the key of the delta 0 of a contract, whose address is in
-- small hexadecimal digits with bytes below 256, is built, it `equals` the key of the contract's bytecode, and the bytes
-- of the two keys, under which the database stores, differ.
pub zero_delta_equals_contract :
    (bs : List ℕ)
    → IsBytes bs
    → (k : DbKey) × (from_delta_tuple (to_hex_string bs) 0 ≡ some k)
      × (equals k (from_contract_addr (to_hex_string bs)) ≡ true)
      × (k.byte_key ≢ (from_contract_addr (to_hex_string bs)).byte_key)
zero_delta_equals_contract bs hb = (
  new_key (bs ++ bytes4 0) (to_hex_string bs) (some 0),
  from_delta_tuple_lem bs 0 hb (omega arith),
  zero_key-equals bs,
  zero_key-differs bs hb,
)

from_delta_tuple-fields :
    (a : String) (i : ℕ) (k : DbKey)
    → from_delta_tuple a i ≡ some k
    → (k.hex_addr ≡ remove0x a) × (k.idx ≡ some i) × (k.is_contract ≡ (i == 0))
unfolding from_delta_tuple to_bytes_key new_key
from_delta_tuple-fields a i k p = ground arith

-- Two delta keys with indices other than 0 are equal exactly if they have the same address, less `0x`, and the same
-- index.
pub equals-from_delta_tuple :
    (a b : String) (i j : ℕ) (k l : DbKey)
    → 0 < i
    → 0 < j
    → from_delta_tuple a i ≡ some k
    → from_delta_tuple b j ≡ some l
    → (equals k l ≡ true) ↔ ((remove0x a ≡ remove0x b) × (i ≡ j))
unfolding equals
equals-from_delta_tuple a b i j k l hi hj p q =
    let (ka, ki, kc) = from_delta_tuple-fields a i k p in
    let (la, li, lc) = from_delta_tuple-fields b j l q in
    ground (arith, eq_iff k.hex_addr l.hex_addr)
