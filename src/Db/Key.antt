-- ===== src/Db/Key.antt =====
-- src/db/DbKey.js: keys of bytecodes and of deltas.
use enigma_p2p.Base.{
  ℕ, String, Bool, true, false, not, Option, none, some, List, ◌&&◌, ◌==◌, if◌then◌else◌, ◌>>=◌,
}
use enigma_p2p.Base.Text.{remove0x}
use text.Mathlib.Text.{◌==◌ as str_eq}
use enigma_p2p.Db.Bytes.{hex_to_bytes, to_hex_string, to_bytes_key, delta_key_bytes_to_tuple}

pub record DbKey : Type 0 where
  pub byte_key : List ℕ
  pub hex_addr : String
  pub idx : Option ℕ
  pub is_contract : Bool

-- The test `if (idx)`: 0 counts as no index.
abbrev is_index : Option ℕ → Bool
is_index none = false
is_index (some i) = not (i == 0)

unfoldable pub new_key : List ℕ → String → Option ℕ → DbKey
unfolding remove0x
new_key bytes addr idx = record {
  byte_key = bytes;
  hex_addr = remove0x addr;
  idx = idx;
  is_contract = not (is_index idx);
}

unfoldable pub from_contract_addr : String → DbKey
unfolding hex_to_bytes new_key
from_contract_addr addr = new_key (hex_to_bytes addr) addr none

unfoldable pub from_contract_bytes : List ℕ → DbKey
unfolding to_hex_string new_key
from_contract_bytes bytes = new_key bytes (to_hex_string bytes) none

-- `none` is the error of an index beyond 32 bits.
unfoldable pub from_delta_tuple : String → ℕ → Option DbKey
unfolding hex_to_bytes to_bytes_key new_key
from_delta_tuple addr idx = do
  bytes ← to_bytes_key (hex_to_bytes addr) (some idx)
  some (new_key bytes addr (some idx))

unfoldable pub from_delta_bytes : List ℕ → Option DbKey
from_delta_bytes bytes = do t ← delta_key_bytes_to_tuple bytes; some (new_key bytes t.0 (some t.1))

unfoldable pub is_delta : DbKey → Bool
is_delta k = not k.is_contract

abbrev same_index : Option ℕ → Option ℕ → Bool
same_index none none = true
same_index (some i) (some j) = i == j
same_index _ _ = false

unfoldable pub equals : DbKey → DbKey → Bool
unfolding is_delta
equals a b =
    if a.is_contract && b.is_contract
    then str_eq a.hex_addr b.hex_addr
    else if is_delta a && is_delta b
    then str_eq a.hex_addr b.hex_addr && same_index a.idx b.idx
    else false
