-- ===== src/Channels/Callbacks.antt =====
-- src/core/ipc.js: what one step does to the callbacks that wait, and whom it answers.
use text.Mathlib.Text.{◌==◌ as str_eq}
use enigma_p2p.Base.{
  String, ◌≡◌, ◌≢◌, refl, sym, ◌∙◌, subst, Option, none, some, [], ◌∷◌, ◌++◌, ◌⊎◌, inl, inr,
  Bool-cases, All-append, arith, eq_iff, All,
}
use enigma_p2p.Base.Dict
use enigma_p2p.Base.Dict.{Dict, get-put, get-put_self}
use enigma_p2p.Channels.Envelop.{Envelop}
use enigma_p2p.Channels.Ipc.{
  CoreRequest, CoreResponse, Answer, answered, core_error, IpcClient, Answers, key_of, fill_id,
  missing_id, send_to_core, on_message,
}

-- Under the other keys no envelope of the id `i` waits.
abbrev pub Foreign : String → String → Dict (Option Envelop) → Type 0
Foreign k i m = (j : String) (e : Envelop) → j ≢ k → Dict.get j m ≡ some (some e) → e.id ≢ some i

pub Foreign-put :
    (k i j : String) (o : Option Envelop) (m : Dict (Option Envelop))
    → ((e : Envelop) → o ≡ some e → (j ≡ k) ⊎ (e.id ≢ some i))
    → Foreign k i m
    → Foreign k i (Dict.put j o m)
Foreign-put k i j o m own foreign l e other found = elim (Bool-cases (str_eq j l)) [
  | inl same ↦
      let there : some o ≡ some (some e) = ground (arith, get-put j l o m, found, same) in
      elim (own e (cc there)) [
        | inl at ↦ absurd (other (sym ((eq_iff j l).0 same) ∙ at))
        | inr free ↦ free
      ]
  | inr apart ↦ foreign l e other (ground (arith, get-put j l o m, found, apart))
]

pub send_to_core_mapping :
    (validate : CoreRequest → Option CoreRequest) (e : Envelop) (r : CoreRequest) (c : IpcClient)
    → (send_to_core validate e r c).0.msg_mapping
      ≡ Dict.put (key_of (fill_id e r).id) (some e) c.msg_mapping
unfolding send_to_core
send_to_core_mapping validate e r c = ground arith

abbrev pub Spares : String → Answers → Type 0
Spares i = All (λ (x : Envelop × Answer). x.0.id ≢ some i)

missing_id_own :
    (i : String) (e : Envelop) (o : Option String) → e.id ≢ some i → Spares i (missing_id e o)
unfolding missing_id
missing_id_own i e none free = (free, tt)
missing_id_own i e (some n) free = tt

send_to_core_answers :
    (validate : CoreRequest → Option CoreRequest) (e : Envelop) (r : CoreRequest) (c : IpcClient)
    → let own = missing_id e (fill_id e r).id in
      ((send_to_core validate e r c).1 ≡ own)
      ⊎ ((send_to_core validate e r c).1 ≡ own ++ (e, core_error) ∷ [])
unfolding send_to_core
send_to_core_answers validate e r c = go (validate (fill_id e r)) refl
  where
    go :
        (o : Option CoreRequest)
        → validate (fill_id e r) ≡ o
        → let own = missing_id e (fill_id e r).id in
          ((send_to_core validate e r c).1 ≡ own)
          ⊎ ((send_to_core validate e r c).1 ≡ own ++ (e, core_error) ∷ [])
    go none eq = inr (ground (arith, eq))
    go (some final) eq = inl (ground (arith, eq))

pub send_to_core-Spares :
    (validate : CoreRequest → Option CoreRequest) (i : String) (e : Envelop) (r : CoreRequest)
    (c : IpcClient)
    → e.id ≢ some i
    → Spares i (send_to_core validate e r c).1
send_to_core-Spares validate i e r c free =
    let own = missing_id_own i e (fill_id e r).id free in
    elim (send_to_core_answers validate e r c) [
      | inl is ↦ subst (Spares i) (sym is) own
      | inr is ↦
          subst (Spares i) (sym is)
            (All-append _ (missing_id e (fill_id e r).id) ((e, core_error) ∷ []) own (free, tt))
    ]

-- Either the client and the promises stay as they were, or an envelope gets the response.
pub on_message_cases :
    (r : CoreResponse) (c : IpcClient)
    → (on_message r c ≡ (c, []))
      ⊎ ((e : Envelop) × (Dict.get r.id c.msg_mapping ≡ some (some e))
          × (on_message r c ≡ (
            record c { msg_mapping = Dict.put r.id none c.msg_mapping },
            (e, answered r) ∷ [],
          )))
unfolding on_message
on_message_cases r c = go (Dict.get r.id c.msg_mapping) refl
  where
    go :
        (o : Option (Option Envelop))
        → Dict.get r.id c.msg_mapping ≡ o
        → (on_message r c ≡ (c, []))
          ⊎ ((e : Envelop) × (Dict.get r.id c.msg_mapping ≡ some (some e))
              × (on_message r c ≡ (
                record c { msg_mapping = Dict.put r.id none c.msg_mapping },
                (e, answered r) ∷ [],
              )))
    go none found = inl (rw (found, on_message) refl)
    go (some none) found = inl (rw (found, on_message) refl)
    go (some (some e)) found = inr (e, found, rw (found, on_message) refl)
