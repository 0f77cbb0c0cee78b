-- ===== src/Tasks/Stored.antt =====
-- Reading the database of TaskManager.js after its writes.

use enigma_p2p.Base.{String, ◌≡◌, ◌≢◌, refl, false, Option, none, some, ◌>>=◌, arith, eq_iff}
use enigma_p2p.Tasks.Task.{Task}
use enigma_p2p.Tasks.Json.{TaskJson, loaded, to_db_json, deserialize_task}
use enigma_p2p.Tasks.RoundTrip.{IsStorable, deserialize_task-to_db_json}
use enigma_p2p.Tasks.Level.{Level, LevelLaws}
use enigma_p2p.Tasks.Manager.{ok, Manager, read_task, get_task}

pub stored_form :
    (t : Task)
    → IsStorable t
    → (j : TaskJson) × (to_db_json t ≡ some j) × (deserialize_task j ≡ loaded t)
stored_form t h = go (to_db_json t) refl (deserialize_task-to_db_json t h)
  where
    go :
        (o : Option TaskJson)
        → to_db_json t ≡ o
        → (o >>= λ j. some (deserialize_task j)) ≡ some (loaded t)
        → (j : TaskJson) × (to_db_json t ≡ some j) × (deserialize_task j ≡ loaded t)
    go none e k = cc
    go (some j) e k = (j, e, cc)

module _ (level : Level TaskJson) where
  -- No write to the database fails.
  pub record Healthy : Type 0 where
    pub put_works : (k : String) (j : TaskJson) (s : level.Store) → (level.put k j s).1 ≡ false
    pub del_works : (k : String) (s : level.Store) → (level.del k s).1 ≡ false

  -- A manager that reads the stored task `t` under `id`, and reads every other id as `m` does.
  pub record Holds (id : String) (t : Task) (m m' : Manager level) : Type 0 where
    pub found : get_task level id m' ≡ ok t
    pub others : (j : String) → j ≢ id → read_task level j m'.store ≡ read_task level j m.store

module _ (level : Level TaskJson) (laws : LevelLaws level) where
  pub read_after_put :
      (id : String) (t : Task) (j : TaskJson) (s : level.Store)
      → Healthy level
      → deserialize_task j ≡ loaded t
      → read_task level id (level.put id j s).0 ≡ ok t
  unfolding read_task
  read_after_put id t j s healthy back =
      ground (arith, laws.get_put id id j s (healthy.put_works id j s), eq_iff id id)

  pub read_other_put :
      (id k : String) (j : TaskJson) (s : level.Store)
      → Healthy level
      → k ≢ id
      → read_task level k (level.put id j s).0 ≡ read_task level k s
  unfolding read_task
  read_other_put id k j s healthy other =
      ground (arith, laws.get_put id k j s (healthy.put_works id j s), eq_iff id k)

  pub read_other_del :
      (id k : String) (s : level.Store)
      → Healthy level
      → k ≢ id
      → read_task level k (level.del id s).0 ≡ read_task level k s
  unfolding read_task
  read_other_del id k s healthy other =
      ground (arith, laws.get_del id k s (healthy.del_works id s), eq_iff id k)
