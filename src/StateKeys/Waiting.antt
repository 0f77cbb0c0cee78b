-- ===== src/StateKeys/Waiting.antt =====
-- What becomes of the tasks that wait for the end of an exchange.
use enigma_p2p.Base.{
  ℕ, ◌≡◌, refl, ap, ◌∙◌, true, false, Option, none, some, List, [], ◌∷◌, ◌++◌, arith, All, map,
  if◌then◌else◌,
}
use enigma_p2p.Tasks.Task.{Task}
use enigma_p2p.Actions.Commit.{is_deploy_task}
use enigma_p2p.StateKeys.System.{
  asked_core, KeysError, remove_at, Run, System, Output, query_core, sent_to_core, dropped,
  answered, answer, start_run, execute_task, execute_all, end_ptt, finish,
}

-- What the caller of an exchange does at its end: a deployment goes to Core, or is dropped with an
-- error in the log; another caller is told the error, or that there is none.
abbrev pub Tells : Option Task → Option KeysError → Output → Type 0
Tells none e o = o ≡ answered e
Tells (some t) none o = o ≡ sent_to_core t
Tells (some t) (some e) o = o ≡ dropped t

pub answer-Tells : (caller : Option Task) (e : Option KeysError) → Tells caller e (answer caller e)
unfolding answer
answer-Tells none e = refl
answer-Tells (some t) none = refl
answer-Tells (some t) (some e) = refl

-- A task that is executed during an exchange: a deployment is lost.
abbrev pub while_busy : Task → Output
while_busy t = if is_deploy_task t.payload then dropped t else sent_to_core t

-- The execution that a deployment begins, for the keys of its contract.
abbrev pub run_for : Task → Run
run_for t = record {
  caller = some t;
  addresses = some (t.contract_addr ∷ []);
  block_number = t.block_number;
  phase = asked_core;
}

execute_task_busy :
    (t : Task) (s : System) → s.in_ptt ≡ true → execute_task t s ≡ (s, while_busy t ∷ [])
unfolding execute_task start_run answer
execute_task_busy t s busy = ground (arith, busy)

execute_all_busy :
    (ts : List Task) (s : System) → s.in_ptt ≡ true → execute_all ts s ≡ (s, map while_busy ts)
unfolding execute_all
execute_all_busy [] s busy = refl
execute_all_busy (t ∷ ts) s busy =
    rw (execute_task_busy t s busy) (rw (execute_all_busy ts s busy) refl)

execute_all_plain :
    (before rest : List Task) (s : System)
    → All (λ b. is_deploy_task b.payload ≡ false) before
    → execute_all (before ++ rest) s
      ≡ ((execute_all rest s).0, map sent_to_core before ++ (execute_all rest s).1)
unfolding execute_all execute_task
execute_all_plain [] rest s plain = refl
execute_all_plain (b ∷ before) rest s (here, plain) =
    rw here (rw (execute_all_plain before rest s plain) refl)

abbrev begun : Task → System → System
begun t s = record s { in_ptt = true; running = s.running ++ run_for t ∷ [] }

begins :
    (t : Task) (s : System)
    → is_deploy_task t.payload ≡ true
    → s.in_ptt ≡ false
    → execute_task t s ≡ (begun t s, query_core ∷ [])
unfolding execute_task start_run
begins t s deploys free = ground (arith, deploys, free)

-- The first deployment begins an exchange of its own, during which the others are executed.
starts_first :
    (after : List Task) (t : Task) (s : System)
    → is_deploy_task t.payload ≡ true
    → s.in_ptt ≡ false
    → execute_all (t ∷ after) s ≡ (begun t s, query_core ∷ map while_busy after)
unfolding execute_all
starts_first after t s deploys free =
    rw (begins t s deploys free) (rw (execute_all_busy after (begun t s) refl) refl)

execute_all_first :
    (before after : List Task) (t : Task) (s : System)
    → All (λ b. is_deploy_task b.payload ≡ false) before
    → is_deploy_task t.payload ≡ true
    → s.in_ptt ≡ false
    → execute_all (before ++ t ∷ after) s
      ≡ (begun t s, map sent_to_core before ++ query_core ∷ map while_busy after)
execute_all_first before after t s plain deploys free =
    execute_all_plain before (t ∷ after) s plain
    ∙ ap (λ p. (p.0, map sent_to_core before ++ p.1)) (starts_first after t s deploys free)

-- Of the deployments that wait for the end of an exchange only the first is executed. When the
-- exchange ends, by whichever answer, the tasks before the first deployment, which are computations,
-- are sent to Core; the first deployment sets the flag again and asks Core for an exchange of its
-- own; of the tasks after it each deployment is dropped and each other one is sent to Core; and at
-- last the caller of the exchange that has ended goes on, or is told its error. Nothing waits then.
pub finish_drops :
    (i : ℕ) (r : Run) (e : Option KeysError) (s : System) (before after : List Task) (t : Task)
    → s.waiting ≡ before ++ t ∷ after
    → All (λ b. is_deploy_task b.payload ≡ false) before
    → is_deploy_task t.payload ≡ true
    → ((finish i r e s).0 ≡ record {
      in_ptt = true;
      waiting = [];
      running = remove_at i s.running ++ run_for t ∷ [];
      stuck = s.stuck;
    })
      × ((o : Output) × Tells r.caller e o
          × ((finish i r e s).1
              ≡ map sent_to_core before ++ query_core ∷ map while_busy after ++ o ∷ []))
unfolding finish end_ptt
finish_drops i r e s before after t waits plain deploys =
    let free : System = record s {
      running = remove_at i s.running;
      in_ptt = false;
      waiting = [];
    } in
    rw waits (
      rw (execute_all_first before after t free plain deploys refl)
        ((refl, (answer r.caller e, answer-Tells r.caller e, refl))))
