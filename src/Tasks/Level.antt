-- ===== src/Tasks/Level.antt =====
-- The database under src/db/LevelDbApi.js, the package `level`, as a parameter: its operations and
-- what they are documented to do. LevelDbApi.js hands each call on, once it is open.
use enigma_p2p.Base.{String, ◌≡◌, Bool, false, Option, none, some, List, if◌then◌else◌, arith}
use enigma_p2p.Base.Dict
use enigma_p2p.Base.Dict.{Dict, get-put, get-remove}
use text.Mathlib.Text.{◌==◌ as str_eq}

-- A store of values of type `V` under texts. The flag of a write says that it failed; a read or a
-- listing that fails is `none`, and `is_not_found` says that a failed listing has the type
-- `NotFoundError`.
pub record Level (V : Type 0) : Type 1 where
  pub Store : Type 0
  pub get : String → Store → Option V
  pub put : String → V → Store → Store × Bool
  pub del : String → Store → Store × Bool
  pub entries : Store → Option (List (String × V))
  pub is_not_found : Store → Bool

-- A write that does not fail is seen by the reads that follow, under its key and no other.
pub record LevelLaws {V : Type 0} (level : Level V) : Type 0 where
  pub get_put :
      (k j : String) (v : V) (s : level.Store)
      → (level.put k v s).1 ≡ false
      → level.get j (level.put k v s).0 ≡ (if str_eq k j then some v else level.get j s)
  pub get_del :
      (k j : String) (s : level.Store)
      → (level.del k s).1 ≡ false
      → level.get j (level.del k s).0 ≡ (if str_eq k j then none else level.get j s)
  pub get_entries :
      (s : level.Store) (es : List (String × V))
      → level.entries s ≡ some es
      → (k : String) → Dict.get k es ≡ level.get k s

-- A database in memory that never fails.
abbrev pub memory : (V : Type 0) → Level V
memory V = record {
  Store = Dict V;
  get = Dict.get;
  put = λ k v s. (Dict.put k v s, false);
  del = λ k s. (Dict.remove k s, false);
  entries = λ s. some s;
  is_not_found = λ s. false;
}

pub memory-LevelLaws : (V : Type 0) → LevelLaws (memory V)
memory-LevelLaws V = record {
  get_put = λ k j v s _. get-put k j v s;
  get_del = λ k j s _. get-remove k j s;
  get_entries = λ s es e k. ground arith;
}
