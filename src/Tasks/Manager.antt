-- ===== src/Tasks/Manager.antt =====
-- src/worker/tasks/TaskManager.js: the pool of unverified tasks, the stored tasks, and the
-- notifications that the manager emits. A promise's outcome or the argument of a callback is a
-- `Reply`.
use enigma_p2p.Base.{
  ℕ, ◌+◌, String, Bool, true, false, Option, none, some, List, [], ◌∷◌, ◌++◌, map, if◌then◌else◌,
  ltb, ◌>>=◌,
}
use enigma_p2p.Base.Dict
use enigma_p2p.Base.Dict.{Dict}
use enigma_p2p.Tasks.Result.{in_progress, Status, TaskResult, result_task_id}
use enigma_p2p.Tasks.Task.{Task, set_status, set_result, is_finished, is_failed, is_success}
use enigma_p2p.Tasks.Json.{TaskJson, loaded, null, type_error, to_db_json, deserialize_task}
use enigma_p2p.Tasks.Level.{Level}

pub record PoolEntry : Type 0 where
  pub time : ℕ
  pub task : Task

pub data Notice : Type 0 where
  verify_new_task task_verified task_finished : Task → Notice

-- How an operation answers: with a value, an error, an exception that nothing catches, or never.
pub data Reply {ℓ} (A : Type ℓ) : Type ℓ where
  ok : A → Reply A
  not_verified_error : Reply A
  db_error : Reply A
  load_error : Reply A
  exception : Reply A
  no_reply : Reply A

module _ (level : Level TaskJson) where
  pub record Manager : Type 0 where
    pub pool : Dict PoolEntry
    pub store : level.Store

  -- What an operation does: the new state, its answer, and the notifications.
  abbrev pub Effect {ℓ} : Type ℓ → Type ℓ
  Effect A = Manager × Reply A × List Notice

  -- `addTaskUnverified`: a task whose id is in the pool already is not added.
  unfoldable pub add_task_unverified : ℕ → Task → Manager → Manager × List Notice
  add_task_unverified now t m = if Dict.has t.task_id m.pool then (m, []) else (
    record m { pool = Dict.put t.task_id (record { time = now; task = t }) m.pool },
    verify_new_task t ∷ [],
  )

  -- `_storeTask`: the id, the new store, and whether the write failed; `none` is a `TypeError`.
  unfoldable pub store_task : Task → level.Store → Option (level.Store × Bool)
  store_task t s = elim (to_db_json t) [ none ↦ none | some j ↦ some (level.put t.task_id j s) ]

  unfoldable pub add_outside_result : Task → Manager → Effect (Unit {0})
  unfolding store_task
  add_outside_result t m = elim (store_task t m.store) [
    | none ↦ (m, exception, [])
    | some (s, failed) ↦ (record m { store = s }, (if failed then db_error else ok tt), [])
  ]

  unfoldable pub remove_task : String → Manager → Effect (Unit {0})
  remove_task id m =
      let (s, failed) = level.del id m.store in
      (
        record m { pool = Dict.remove id m.pool; store = s },
        (if failed then db_error else ok tt),
        [],
      )

  -- `_readTask`
  unfoldable pub read_task : String → level.Store → Reply Task
  read_task id s = elim (level.get id s) [
    | none ↦ db_error
    | some j ↦ elim (deserialize_task j) [
      | loaded t ↦ ok t
      | null ↦ load_error
      | type_error ↦ exception
    ]
  ]

  -- A task of the pool is returned to the caller, and the callback is not called.
  unfoldable pub get_task : String → Manager → Reply Task
  unfolding read_task
  get_task id m = if Dict.has id m.pool then no_reply else read_task id m.store

  -- `getTaskStatus` answers `null` for an error.
  unfoldable pub get_task_status : String → Manager → Reply (Option Status)
  get_task_status id m = elim (get_task id m) [
    | ok t ↦ ok (some t.status)
    | exception ↦ exception
    | no_reply ↦ no_reply
    | _ ↦ ok none
  ]

  -- `_deserializeTask` of every entry. A `null` stays in the list, as `none`.
  unfoldable pub load_all : List (String × TaskJson) → Option (List (Option Task))
  load_all [] = some []
  load_all ((id, j) ∷ es) =
      let rest = load_all es in
      elim (deserialize_task j) [
        | loaded t ↦ (rest >>= λ ts. some (some t ∷ ts))
        | null ↦ (rest >>= λ ts. some (none ∷ ts))
        | type_error ↦ none
      ]

  unfoldable pub get_all_db_tasks : level.Store → Reply (List (Option Task))
  unfolding load_all
  get_all_db_tasks s = elim (level.entries s) [
    | none ↦ db_error
    | some es ↦ elim (load_all es) [ none ↦ exception | some ts ↦ ok ts ]
  ]

  unfoldable pub get_unverified_tasks : Manager → List Task
  get_unverified_tasks m = map (λ e. e.task) (Dict.values m.pool)

  -- A listing that fails with `NotFoundError` counts as empty.
  unfoldable pub get_all_tasks : Manager → Reply (List (Option Task))
  unfolding get_all_db_tasks get_unverified_tasks
  get_all_tasks m = elim (get_all_db_tasks m.store) [
    | ok ts ↦ ok (map some (get_unverified_tasks m) ++ ts)
    | db_error ↦
        if level.is_not_found m.store then ok (map some (get_unverified_tasks m)) else db_error
    | r ↦ r
  ]

  -- `filter`, where asking `null` for a method throws.
  unfoldable pub filter_tasks : (Task → Bool) → List (Option Task) → Option (List Task)
  filter_tasks p [] = some []
  filter_tasks p (none ∷ ts) = none
  filter_tasks p (some t ∷ ts) = filter_tasks p ts >>= λ rest. some (if p t then t ∷ rest else rest)

  filtered : (Task → Bool) → Reply (List (Option Task)) → Reply (List Task)
  unfolding filter_tasks
  filtered p (ok ts) = elim (filter_tasks p ts) [ none ↦ exception | some kept ↦ ok kept ]
  filtered p db_error = db_error
  filtered p load_error = load_error
  filtered p not_verified_error = not_verified_error
  filtered p exception = exception
  filtered p no_reply = no_reply

  unfoldable pub get_finished_tasks : Manager → Reply (List Task)
  unfolding filtered get_all_db_tasks is_finished
  get_finished_tasks m = filtered is_finished (get_all_db_tasks m.store)

  -- The failed and the successful ones among the finished.
  unfoldable pub get_failed_tasks : Manager → Reply (List Task)
  unfolding get_finished_tasks filtered is_failed
  get_failed_tasks m = elim (get_finished_tasks m) [
    | ok ts ↦ filtered is_failed (ok (map some ts))
    | r ↦ r
  ]

  unfoldable pub get_successful_tasks : Manager → Reply (List Task)
  unfolding get_finished_tasks filtered is_success
  get_successful_tasks m = elim (get_finished_tasks m) [
    | ok ts ↦ filtered is_success (ok (map some ts))
    | r ↦ r
  ]

  -- The store of a verified task, then the change of the pool and the notification. The task in the
  -- pool is in progress also where the write fails.
  unfoldable pub store_verified : ℕ → Task → Manager → Effect (Unit {0})
  unfolding store_task
  store_verified time t m =
      let marked = record m {
        pool = Dict.put t.task_id (record { time = time; task = t }) m.pool;
      } in
      elim (store_task t m.store) [
        | none ↦ (marked, exception, [])
        | some (s, true) ↦ (record marked { store = s }, db_error, [])
        | some (s, false) ↦ (
          record m { pool = Dict.remove t.task_id m.pool; store = s },
          ok tt,
          task_verified t ∷ [],
        )
      ]

  unfoldable pub on_verify_task : String → Bool → Manager → Effect (Unit {0})
  unfolding store_verified
  on_verify_task id is_verified m = elim (Dict.get id m.pool) [
    | none ↦ (m, ok tt, [])
    | some e ↦ elim is_verified [
      | false ↦ (m, ok tt, [])
      | true ↦ store_verified e.time (set_status in_progress e.task) m
    ]
  ]

  -- The end of `onFinishTask`: the task is stored again with its result.
  unfoldable pub store_finished : Task → Manager → Effect (Unit {0})
  unfolding store_task
  store_finished t m = elim (store_task t m.store) [
    | none ↦ (m, exception, [])
    | some (s, true) ↦ (record m { store = s }, db_error, [])
    | some (s, false) ↦ (record m { store = s }, ok tt, task_finished t ∷ [])
  ]

  unfoldable pub on_finish_task : TaskResult → Manager → Effect (Unit {0})
  unfolding read_task store_finished
  on_finish_task r m =
      if Dict.has (result_task_id r) m.pool
      then (m, not_verified_error, [])
      else elim (read_task (result_task_id r) m.store) [
        | ok t ↦
            let (s, failed) = level.del (result_task_id r) m.store in
            if failed
            then (record m { store = s }, db_error, [])
            else store_finished (set_result r t) (record m { store = s })
        | exception ↦ (m, exception, [])
        | load_error ↦ (m, load_error, [])
        | _ ↦ (m, db_error, [])
      ]

  -- 24 hours; `none` is the `undefined` of a task that is not in the pool.
  unfoldable pub is_keep_alive : (now day : ℕ) → String → Manager → Option Bool
  is_keep_alive now day id m = elim (Dict.get id m.pool) [
    | none ↦ none
    | some e ↦ some (ltb now (e.time + day))
  ]
