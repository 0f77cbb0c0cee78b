-- ===== src/Db/Tests.antt =====
-- The theorems of Db at small keys.
use enigma_p2p.Base.{ℕ, ◌≡◌, ◌≢◌, true, some, List, [], ◌∷◌, ◌>>=◌, arith, is_some}
use enigma_p2p.Db.Bytes.{to_hex_string}
use enigma_p2p.Db.Key.{DbKey, from_contract_addr, from_delta_tuple, from_delta_bytes, equals}
use enigma_p2p.Db.Keys.{delta_key-round_trip, zero_delta_equals_contract}

abbrev demo_address : List ℕ
demo_address = 171 ∷ 7 ∷ []

delta_key-round_trip_example :
    ((from_delta_tuple (to_hex_string demo_address) 258 >>= (λ k. from_delta_bytes k.byte_key))
      ≡ from_delta_tuple (to_hex_string demo_address) 258)
    × (is_some (from_delta_tuple (to_hex_string demo_address) 258) ≡ true)
delta_key-round_trip_example =
    delta_key-round_trip demo_address 258 (omega arith, (omega arith, tt)) (omega arith)

zero_delta_equals_contract_example :
    (k : DbKey) × (from_delta_tuple (to_hex_string demo_address) 0 ≡ some k)
    × (equals k (from_contract_addr (to_hex_string demo_address)) ≡ true)
    × (k.byte_key ≢ (from_contract_addr (to_hex_string demo_address)).byte_key)
zero_delta_equals_contract_example =
    zero_delta_equals_contract demo_address (omega arith, (omega arith, tt))
