-- ===== src/Tasks/Lifecycle.antt =====
-- The life of a task in TaskManager.js: added, verified, finished, and read at each stage.
use mathlib.Core.Path.{ap₂}
use enigma_p2p.Base.{
  subst, ℕ, String, ◌≡◌, refl, sym, ◌∙◌, Bool, true, false, Option, none, some, [], ◌∷◌, ◌++◌,
  arith, Occurs,
}
use enigma_p2p.Base.Dict
use enigma_p2p.Base.Dict.{Dict, get-put, get-put_self, get-remove, get-remove_self}
use enigma_p2p.Tasks.Result.{Status, in_progress, TaskResult, result_task_id}
use enigma_p2p.Tasks.Task.{Task, set_status, set_result}
use enigma_p2p.Tasks.Json.{TaskJson, to_db_json}
use enigma_p2p.Tasks.RoundTrip.{IsStorable}
use enigma_p2p.Tasks.Level.{Level, LevelLaws}
use enigma_p2p.Tasks.Manager.{
  PoolEntry, verify_new_task, task_verified, task_finished, ok, no_reply, Manager,
  add_task_unverified, store_task, read_task, get_task, get_task_status, store_verified,
  on_verify_task, store_finished, on_finish_task,
}
use enigma_p2p.Tasks.Stored.{
  stored_form, Healthy, Holds, read_after_put, read_other_put, read_other_del,
}

pub set_result_id : (r : TaskResult) (t : Task) → (set_result r t).task_id ≡ t.task_id
unfolding set_result
set_result_id r t = ground arith

set_status_id : (s : Status) (t : Task) → (set_status s t).task_id ≡ t.task_id
unfolding set_status
set_status_id s t = refl

module _ (level : Level TaskJson) where
  pub get_task_stored :
      (m : Manager level) (id : String)
      → Dict.get id m.pool ≡ none
      → get_task level id m ≡ read_task level id m.store
  unfolding get_task
  get_task_stored m id h = ground (arith, h)

  add_effect :
      (m : Manager level) (now : ℕ) (t : Task)
      → Dict.get t.task_id m.pool ≡ none
      → (Dict.get t.task_id (add_task_unverified level now t m).0.pool
          ≡ some (record { time = now; task = t }))
        × ((add_task_unverified level now t m).1 ≡ verify_new_task t ∷ [])
  unfolding add_task_unverified
  add_effect m now t h =
      ground (arith, h, get-put_self t.task_id (record { time = now; task = t }) m.pool)

  -- The status of a task that waits for its verification cannot be asked for: from the moment it is
  -- added the query is never answered.
  pub status_unanswered :
      (m : Manager level) (now : ℕ) (t : Task)
      → get_task_status level t.task_id (add_task_unverified level now t m).0 ≡ no_reply
  unfolding get_task_status get_task add_task_unverified
  status_unanswered m now t =
      ground (arith, get-put_self t.task_id (record { time = now; task = t }) m.pool)

  store_verified_notifies :
      (time : ℕ) (u : Task) (m : Manager level) (t : Task)
      → Occurs (task_verified t) (store_verified level time u m).2
      → t ≡ u
  unfolding store_verified
  store_verified_notifies time u m t o = ground arith

  -- Core is told of a verified task only where the verification succeeded for a task of the pool.
  pub on_verify_task_notifies :
      (m : Manager level) (id : String) (is_verified : Bool) (t : Task)
      → Occurs (task_verified t) (on_verify_task level id is_verified m).2
      → (is_verified ≡ true)
        × ((e : PoolEntry) × (Dict.get id m.pool ≡ some e) × (t ≡ set_status in_progress e.task))
  unfolding on_verify_task store_verified
  on_verify_task_notifies m id is_verified t o = go (Dict.get id m.pool) is_verified refl refl
    where
      go :
          (entry : Option PoolEntry) (b : Bool)
          → Dict.get id m.pool ≡ entry
          → is_verified ≡ b
          → (is_verified ≡ true)
            × ((e : PoolEntry) × (Dict.get id m.pool ≡ some e)
                × (t ≡ set_status in_progress e.task))
      go none b p q = absurd (ground (arith, p))
      go (some e) false p q = absurd (ground (arith, p, q))
      go (some e) true p q = (
        q,
        (
          e,
          p,
          store_verified_notifies e.time (set_status in_progress e.task) m t (ground (arith, p, q)),
        ),
      )

module _ (level : Level TaskJson) (laws : LevelLaws level) where
  verify_effect :
      (m : Manager level) (id : String) (e : PoolEntry) (t : Task) (j : TaskJson)
      → Healthy level
      → Dict.get id m.pool ≡ some e
      → t ≡ set_status in_progress e.task
      → t.task_id ≡ id
      → to_db_json t ≡ some j
      → on_verify_task level id true m ≡ (
        record m { pool = Dict.remove id m.pool; store = (level.put id j m.store).0 },
        ok tt,
        task_verified t ∷ [],
      )
  unfolding on_verify_task store_verified store_task
  verify_effect m id e t j healthy pooled is_t named stored =
      ground (arith, healthy.put_works id j m.store)

  -- Verification of a task in the pool: it is stored in progress, leaves the pool, and Core is told.
  pub on_verify_task_stores :
      (m : Manager level) (id : String) (e : PoolEntry)
      → Healthy level
      → Dict.get id m.pool ≡ some e
      → e.task.task_id ≡ id
      → IsStorable (set_status in_progress e.task)
      → let t = set_status in_progress e.task in
        let effect = on_verify_task level id true m in
        Holds level id t m effect.0
        × (effect.1 ≡ ok tt)
        × (effect.2 ≡ task_verified t ∷ [])
        × (Dict.get id effect.0.pool ≡ none)
  on_verify_task_stores m id e healthy pooled named storable =
      let t : Task = set_status in_progress e.task in
      let (j, stored, back) = stored_form t storable in
      rw (verify_effect m id e t j healthy pooled refl (unfold set_status in named) stored) (
        record {
          found =
              unfold get_task in
              ground (
                arith,
                get-remove_self id m.pool,
                read_after_put level laws id t j m.store healthy back,
              );
          others = λ k other. read_other_put level laws id k j m.store healthy other;
        },
        refl,
        refl,
        get-remove_self id m.pool,
      )

  finish_effect :
      (m : Manager level) (r : TaskResult) (t : Task) (id : String) (j : TaskJson)
      → Healthy level
      → result_task_id r ≡ id
      → Dict.get id m.pool ≡ none
      → read_task level id m.store ≡ ok t
      → (set_result r t).task_id ≡ id
      → to_db_json (set_result r t) ≡ some j
      → on_finish_task level r m ≡ (
        record m { store = (level.put id j (level.del id m.store).0).0 },
        ok tt,
        task_finished (set_result r t) ∷ [],
      )
  unfolding on_finish_task store_finished store_task
  finish_effect m r t id j healthy for_id pooled read named stored =
      ground (arith, healthy.del_works id m.store, healthy.put_works id j (level.del id m.store).0)

  -- The end of a stored task's computation: the task is stored again with the result attached, every
  -- other stored task is as before, and the network is told.
  pub on_finish_task_stores :
      (m : Manager level) (r : TaskResult) (t : Task)
      → Healthy level
      → Dict.get (result_task_id r) m.pool ≡ none
      → read_task level (result_task_id r) m.store ≡ ok t
      → (set_result r t).task_id ≡ result_task_id r
      → IsStorable (set_result r t)
      → let effect = on_finish_task level r m in
        Holds level (result_task_id r) (set_result r t) m effect.0
        × (effect.1 ≡ ok tt)
        × (effect.2 ≡ task_finished (set_result r t) ∷ [])
  on_finish_task_stores m r t healthy pooled read named storable =
      let id : String = result_task_id r in
      let (j, stored, back) = stored_form (set_result r t) storable in
      rw (finish_effect m r t id j healthy refl pooled read named stored) (
        record {
          found =
              unfold get_task in
              ground (
                arith,
                read_after_put level laws id (set_result r t) j (level.del id m.store).0 healthy
                    back,
              );
          others = λ k other.
              read_other_put level laws id k j (level.del id m.store).0 healthy other
              ∙ read_other_del level laws id k m.store healthy other;
        },
        refl,
        refl,
      )

  -- From adding a task to reading its result. A task whose id is new, once it is added, verified and
  -- finished by a result of its own, is read with the result attached; the three notifications are
  -- emitted in this order.
  pub add_verify_finish :
      (m : Manager level) (now : ℕ) (t : Task) (r : TaskResult)
      → Healthy level
      → Dict.get t.task_id m.pool ≡ none
      → result_task_id r ≡ t.task_id
      → IsStorable (set_status in_progress t)
      → IsStorable (set_result r (set_status in_progress t))
      → let added = add_task_unverified level now t m in
        let verified = on_verify_task level t.task_id true added.0 in
        let finished = on_finish_task level r verified.0 in
        let final = set_result r (set_status in_progress t) in
        (get_task level t.task_id finished.0 ≡ ok final)
        × (added.1 ++ verified.2 ++ finished.2
            ≡ verify_new_task t
              ∷ task_verified (set_status in_progress t)
              ∷ task_finished final
              ∷ [])
  add_verify_finish m now t r healthy new own s1 s2 =
      let e : PoolEntry = record { time = now; task = t } in
      let t' : Task = set_status in_progress t in
      let m1 : Manager level = (add_task_unverified level now t m).0 in
      let m2 : Manager level = (on_verify_task level t.task_id true m1).0 in
      let (pooled, told) = add_effect level m now t new in
      let (held, _, verified, left) = on_verify_task_stores m1 t.task_id e healthy pooled refl s1 in
      let read : read_task level t.task_id m2.store ≡ ok t' =
        sym (get_task_stored level m2 t.task_id left) ∙ held.found in
      let (final, _, finished) =
        on_finish_task_stores m2 r t' healthy
          (subst (λ k. Dict.get k m2.pool ≡ none) (sym own) left)
          (subst (λ k. read_task level k m2.store ≡ ok t') (sym own) read)
          (set_result_id r t' ∙ set_status_id in_progress t ∙ sym own) s2 in
      (
        subst (λ k. get_task level k (on_finish_task level r m2).0 ≡ ok (set_result r t')) own
            final.found,
        ap₂ (λ a b. a ++ b) (ap₂ (λ a b. a ++ b) told verified) finished,
      )
