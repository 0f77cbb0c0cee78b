-- ===== src/Verifier/Verdicts.antt =====
-- When the checks of EthereumVerifier.js accept a result.
use enigma_p2p.Base.{
  ◌-◌, ap, ℕ, suc, zero, ◌<◌, String, ◌≡◌, refl, ◌↔◌, true, Option, none, some, List, [], ◌∷◌,
  length, get_elem?, arith, eq_iff,
}
use enigma_p2p.Tasks.Result.{Bytes, Computed}
use enigma_p2p.Verifier.Check.{
  VerifyError, check_output, check_delta, tip_error, accept, Tip, TaskParams, verify_hash, delta_of,
  check_deploy_result, check_compute_result, check_compute_result_event, delta_event_error,
  empty_hash,
}

get_elem?-some :
    (hashes : List String) (i : ℕ) (h : String) → get_elem? hashes i ≡ some h → i < length hashes
get_elem?-some [] i h e = absurd (cc e)
get_elem?-some (x ∷ xs) zero h e = omega arith
get_elem?-some (x ∷ xs) (suc i) h e = omega (arith, get_elem?-some xs i h e)

module _ (hash : Bytes → String) where
  -- `verify_hash` accepts exactly a hash that is there and is the hash of the bytes.
  verify_hash_iff :
      (h : Option String) (bytes : Bytes)
      → (verify_hash hash h bytes ≡ true) ↔ (h ≡ some (hash bytes))
  unfolding verify_hash
  verify_hash_iff none bytes = ((λ e. cc), λ e. cc)
  verify_hash_iff (some h) bytes =
      ((λ e. ground (arith, eq_iff (hash bytes) h)), λ e. ground (arith, eq_iff (hash bytes) h))

  -- What makes a deployment's result right.
  pub record DeployFits (c : Computed) (delta_hash code_hash : Option String) : Type 0 where
    pub bytes : Bytes
    pub delta : delta_of c ≡ some (0, bytes)
    pub delta_hash_right : delta_hash ≡ some (hash bytes)
    pub code_hash_right : code_hash ≡ some (hash c.output)

  -- A deploy result is accepted exactly when it has a delta of index 0 whose hash is the contract's
  -- first delta hash and its output hashes to the contract's code hash.
  pub check_deploy_result_iff :
      (c : Computed) (delta_hash code_hash : Option String)
      → (check_deploy_result hash c delta_hash code_hash ≡ accept)
        ↔ DeployFits c delta_hash code_hash
  unfolding check_deploy_result
  check_deploy_result_iff c delta_hash code_hash = (to (delta_of c) refl, from)
    where
      to :
          (o : Option (ℕ × Bytes))
          → delta_of c ≡ o
          → check_deploy_result hash c delta_hash code_hash ≡ accept
          → DeployFits c delta_hash code_hash
      to none e h = absurd (ground (arith, e))
      to (some (key, bytes)) e h = record {
        bytes = bytes;
        delta = ground (arith, e);
        delta_hash_right = ground (arith, e, verify_hash_iff delta_hash bytes);
        code_hash_right = ground (arith, e, verify_hash_iff code_hash c.output);
      }

      from :
          DeployFits c delta_hash code_hash
          → check_deploy_result hash c delta_hash code_hash ≡ accept
      from f =
          ground
            (arith, f.delta, verify_hash_iff delta_hash f.bytes, verify_hash_iff code_hash c.output)

  output_accepted :
      (error : Option VerifyError) (output_hash : Option String) (output : Bytes)
      → (check_output hash error output_hash output ≡ accept)
        ↔ ((error ≡ none) × (output_hash ≡ some (hash output)))
  unfolding check_output
  output_accepted none h output = ground (arith, verify_hash_iff h output)
  output_accepted (some e) h output = ((λ q. cc), λ q. cc (q.0))

  -- What makes a compute result right: its delta is the contract's delta of that index, or, with no
  -- delta, the local tip is the contract's last delta; and the output is the one that the task's
  -- record holds the hash of.
  pub data ComputeFits (hashes : List String) (tip : Option Tip) (c : Computed) : Type 0 where
    changes_state :
        (key : ℕ) (bytes : Bytes)
        → delta_of c ≡ some (key, bytes)
        → get_elem? hashes key ≡ some (hash bytes)
        → ComputeFits hashes tip c
    keeps_state :
        (t : Tip)
        → delta_of c ≡ none
        → tip ≡ some t
        → suc t.key ≡ length hashes
        → get_elem? hashes t.key ≡ some (hash t.bytes)
        → ComputeFits hashes tip c

  check_delta-none :
      (hashes : List String) (key : ℕ) (bytes : Bytes)
      → (check_delta hash hashes (key, bytes) ≡ none) ↔ (get_elem? hashes key ≡ some (hash bytes))
  unfolding check_delta
  check_delta-none hashes key bytes =
      ground (
        arith,
        verify_hash_iff (get_elem? hashes key) bytes,
        get_elem?-some hashes key (hash bytes),
      )

  tip_error-none :
      (hashes : List String) (t : Tip)
      → (tip_error hash hashes t ≡ none)
        ↔ ((suc t.key ≡ length hashes) × (get_elem? hashes t.key ≡ some (hash t.bytes)))
  unfolding tip_error
  tip_error-none hashes t =
      ground (arith, verify_hash_iff (get_elem? hashes (length hashes - 1)) t.bytes)

  -- A compute result is accepted exactly when it fits the contract and its output hashes to the
  -- hash in the task's record.
  pub check_compute_result_iff :
      (task : TaskParams) (hashes : List String) (c : Computed) (tip : Option Tip)
      → (check_compute_result hash task hashes c tip ≡ some accept)
        ↔ (ComputeFits hashes tip c × (task.output_hash ≡ hash c.output))
  unfolding check_compute_result
  check_compute_result_iff task hashes c tip = (to (delta_of c) tip refl refl, from)
    where
      to :
          (o : Option (ℕ × Bytes)) (p : Option Tip)
          → delta_of c ≡ o
          → tip ≡ p
          → check_compute_result hash task hashes c tip ≡ some accept
          → ComputeFits hashes tip c × (task.output_hash ≡ hash c.output)
      to (some (key, bytes)) p e q h =
          let (ok, out) =
            (output_accepted (check_delta hash hashes (key, bytes)) (some task.output_hash)
                c.output).0
              (ground (arith, e)) in
          (changes_state key bytes e ((check_delta-none hashes key bytes).0 ok), ground arith)
      to none none e q h = absurd (ground (arith, e, q))
      to none (some t) e q h =
          let (ok, out) =
            (output_accepted (tip_error hash hashes t) (some task.output_hash) c.output).0
              (ground (arith, e, q)) in
          let (last, same) = (tip_error-none hashes t).0 ok in
          (keeps_state t e q last same, ground arith)

      from :
          ComputeFits hashes tip c × (task.output_hash ≡ hash c.output)
          → check_compute_result hash task hashes c tip ≡ some accept
      from (changes_state key bytes e same, out) =
          rw (e, check_compute_result)
            (ap some
              ((output_accepted _ _ _).1 ((check_delta-none hashes key bytes).1 same, ap some out)))
      from (keeps_state t e q last same, out) =
          rw (e, q, check_compute_result)
            (ap some
              ((output_accepted _ _ _).1 ((tip_error-none hashes t).1 (last, same), ap some out)))

  -- What an event must say for a compute result to be accepted.
  pub data EventFits (delta_hash : String) (delta_index : ℕ) (c : Computed) : Type 0 where
    with_delta :
        (bytes : Bytes)
        → delta_of c ≡ some (delta_index, bytes)
        → delta_hash ≡ hash bytes
        → EventFits delta_hash delta_index c
    without_delta : delta_of c ≡ none → delta_hash ≡ empty_hash → EventFits delta_hash delta_index c

  delta_event_error-some :
      (key : ℕ) (bytes : Bytes) (delta_hash : String) (delta_index : ℕ)
      → (delta_event_error hash (some (key, bytes)) delta_hash delta_index ≡ none)
        ↔ ((key ≡ delta_index) × (delta_hash ≡ hash bytes))
  unfolding delta_event_error
  delta_event_error-some key bytes delta_hash delta_index =
      ground (arith, verify_hash_iff (some delta_hash) bytes)

  delta_event_error-none :
      (delta_hash : String) (delta_index : ℕ)
      → (delta_event_error hash none delta_hash delta_index ≡ none) ↔ (delta_hash ≡ empty_hash)
  unfolding delta_event_error
  delta_event_error-none delta_hash delta_index = ground (arith, eq_iff delta_hash empty_hash)

  -- On a receipt's event, a compute result is accepted exactly when its delta is the event's, index
  -- and hash, or both have none, and the output hashes to the event's output hash.
  pub check_compute_result_event_iff :
      (c : Computed) (output_hash delta_hash : String) (delta_index : ℕ)
      → (check_compute_result_event hash c output_hash delta_hash delta_index ≡ accept)
        ↔ (EventFits delta_hash delta_index c × (output_hash ≡ hash c.output))
  unfolding check_compute_result_event
  check_compute_result_event_iff c output_hash delta_hash delta_index = (to (delta_of c) refl, from)
    where
      to :
          (o : Option (ℕ × Bytes))
          → delta_of c ≡ o
          → check_compute_result_event hash c output_hash delta_hash delta_index ≡ accept
          → EventFits delta_hash delta_index c × (output_hash ≡ hash c.output)
      to (some (key, bytes)) e h =
          let (ok, out) =
            (output_accepted (delta_event_error hash (some (key, bytes)) delta_hash delta_index)
                (some output_hash) c.output).0
              (ground (arith, e)) in
          let (index, same) = (delta_event_error-some key bytes delta_hash delta_index).0 ok in
          (with_delta bytes (rw (← index) e) same, ground arith)
      to none e h =
          let (ok, out) =
            (output_accepted (delta_event_error hash none delta_hash delta_index) (some output_hash)
                c.output).0
              (ground (arith, e)) in
          (without_delta e ((delta_event_error-none delta_hash delta_index).0 ok), ground arith)

      from :
          EventFits delta_hash delta_index c × (output_hash ≡ hash c.output)
          → check_compute_result_event hash c output_hash delta_hash delta_index ≡ accept
      from (with_delta bytes e same, out) =
          rw (e, check_compute_result_event)
            ((output_accepted _ _ _).1 (
              (delta_event_error-some delta_index bytes delta_hash delta_index).1 (refl, same),
              ap some out,
            ))
      from (without_delta e same, out) =
          rw (e, check_compute_result_event)
            ((output_accepted _ _ _).1
              ((delta_event_error-none delta_hash delta_index).1 same, ap some out))
