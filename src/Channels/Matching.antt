-- ===== src/Channels/Matching.antt =====
-- The answers of Core and the promises of `sendAndReceive`.

use enigma_p2p.Base.{
  String, ◌≡◌, ◌≢◌, refl, sym, ap, ◌∙◌, subst, true, Option, none, some, List, [], ◌∷◌, inl, inr,
  arith, eq_iff,
}
use enigma_p2p.Base.Dict
use enigma_p2p.Base.Dict.{Dict, get-put, get-put_self}
use enigma_p2p.Channels.Envelop.{Envelop}
use enigma_p2p.Channels.Ipc.{
  CoreRequest, CoreResponse, answered, call_threw, IpcClient, Answers, key_of, fill_id,
  send_to_core,
}
use enigma_p2p.Channels.Runtime.{
  Made, made, nothing_made, make_threw, request_of, Channel, emit_all, Event, request, message,
  listen, send_made, send_and_receive, receive, handle,
}
use enigma_p2p.Channels.Emit.{
  emit_answer_client, emit_answer_listening, emit_answer_other, emit_all_client, emit_all_listening,
  emit_all_other,
}
use enigma_p2p.Channels.Callbacks.{
  Foreign, Foreign-put, Spares, on_message_cases, send_to_core-Spares, send_to_core_mapping,
}

-- An event that uses neither the id `i` of an envelope nor the id `k` of a message to Core.
abbrev pub Unrelated :
    (validate : CoreRequest → Option CoreRequest) → String → String → Event validate → Type 0
Unrelated validate k i (request rand e) =
    (e.id ≢ some i) × ((r : CoreRequest) → request_of rand e ≡ made r → key_of (fill_id e r).id ≢ k)
Unrelated validate k i (message r) = r.id ≢ k

module _ (validate : CoreRequest → Option CoreRequest) (k i : String) where
  -- No promise of the id `i` has an answer, and none will get the one of another message.
  abbrev pub Quiet : Channel validate → Type 0
  Quiet s = Foreign k i s.client.msg_mapping × (Dict.get i s.emitted ≡ none)

  emit_all-Quiet :
      (answers : Answers) (s : Channel validate)
      → Spares i answers
      → Quiet s
      → Quiet (emit_all validate answers s)
  emit_all-Quiet answers s spares (foreign, quiet) = (
    subst (λ (c : IpcClient). Foreign k i c.msg_mapping) (sym (emit_all_client validate answers s))
        foreign,
    emit_all_other validate i answers s spares ∙ quiet,
  )

  send_made-Quiet :
      (e : Envelop) (m : Made) (s : Channel validate)
      → e.id ≢ some i
      → Quiet s
      → Quiet (send_made validate e m s)
  unfolding send_made
  send_made-Quiet e nothing_made s free quiet = quiet
  send_made-Quiet e make_threw s free (foreign, quiet) = (
    subst (λ (c : IpcClient). Foreign k i c.msg_mapping)
        (sym (emit_answer_client validate e.id call_threw s)) foreign,
    emit_answer_other validate i e.id call_threw s free ∙ quiet,
  )
  send_made-Quiet e (made r) s free (foreign, quiet) =
      emit_all-Quiet _ _ (send_to_core-Spares validate i e r s.client free) (
        subst (Foreign k i) (sym (send_to_core_mapping validate e r s.client)) (
            Foreign-put k i (key_of (fill_id e r).id) (some e) s.client.msg_mapping
              (λ e' same.
                let is : e ≡ e' = cc same in inr (subst (λ (x : Envelop). x.id ≢ some i) is free))
              foreign),
        quiet,
      )

  receive-Quiet :
      (r : CoreResponse) (s : Channel validate) → r.id ≢ k → Quiet s → Quiet (receive validate r s)
  unfolding receive
  receive-Quiet r s other (foreign, quiet) = elim (on_message_cases r s.client) [
    | inl same ↦ rw same (foreign, quiet)
    | inr (e, waits, is) ↦ rw is (
        emit_all-Quiet ((e, answered r) ∷ []) _ (foreign r.id e other waits, tt)
          (
            Foreign-put k i r.id none s.client.msg_mapping (λ e' never. absurd (cc never)) foreign,
            quiet,
          ))
  ]

  pub handle-Quiet :
      (ev : Event validate) (s : Channel validate)
      → Unrelated validate k i ev
      → Quiet s
      → Quiet (handle validate ev s)
  unfolding handle send_and_receive
  handle-Quiet (request rand e) s (free, apart) quiet =
      send_made-Quiet e (request_of rand e) _ free quiet
  handle-Quiet (message r) s other quiet = receive-Quiet r s other quiet

  -- The envelope `e` waits for the answer to the message `k`.
  abbrev pub Waits : Envelop → Channel validate → Type 0
  Waits e s = (Dict.get k s.client.msg_mapping ≡ some (some e)) × (Dict.listed i s.listening ≡ true)

  listed_more :
      (o : Option String) (l : List String)
      → Dict.listed i l ≡ true
      → Dict.listed i (listen o l) ≡ true
  listed_more none l h = h
  listed_more (some j) l h = ground (arith, h)

  emit_all-Waits :
      (e : Envelop) (answers : Answers) (s : Channel validate)
      → Waits e s
      → Waits e (emit_all validate answers s)
  emit_all-Waits e answers s (waits, listens) = (
    ap (λ (c : IpcClient). Dict.get k c.msg_mapping) (emit_all_client validate answers s) ∙ waits,
    ap (Dict.listed i) (emit_all_listening validate answers s) ∙ listens,
  )

  send_made-Waits :
      (e e' : Envelop) (m : Made) (s : Channel validate)
      → ((r : CoreRequest) → m ≡ made r → key_of (fill_id e' r).id ≢ k)
      → Waits e s
      → Waits e (send_made validate e' m s)
  unfolding send_made
  send_made-Waits e e' nothing_made s apart w = w
  send_made-Waits e e' make_threw s apart (waits, listens) = (
    ap (λ (c : IpcClient). Dict.get k c.msg_mapping)
          (emit_answer_client validate e'.id call_threw s)
        ∙ waits,
    ap (Dict.listed i) (emit_answer_listening validate e'.id call_threw s) ∙ listens,
  )
  send_made-Waits e e' (made r) s apart (waits, listens) =
      emit_all-Waits e (send_to_core validate e' r s.client).1
        (record s { client = (send_to_core validate e' r s.client).0 })
        (
          ap (Dict.get k) (send_to_core_mapping validate e' r s.client)
              ∙ ground (
                arith,
                get-put (key_of (fill_id e' r).id) k (some e') s.client.msg_mapping,
                eq_iff (key_of (fill_id e' r).id) k,
                apart r refl,
                waits,
              ),
          listens,
        )

  receive-Waits :
      (e : Envelop) (r : CoreResponse) (s : Channel validate)
      → r.id ≢ k
      → Waits e s
      → Waits e (receive validate r s)
  unfolding receive
  receive-Waits e r s other (waits, listens) = elim (on_message_cases r s.client) [
    | inl same ↦ rw same (waits, listens)
    | inr (e', _, is) ↦ rw is (
        emit_all-Waits e ((e', answered r) ∷ []) _ (
          ground (arith, get-put r.id k none s.client.msg_mapping, eq_iff r.id k, other, waits),
          listens,
        ))
  ]

  pub handle-Waits :
      (e : Envelop) (ev : Event validate) (s : Channel validate)
      → Unrelated validate k i ev
      → Waits e s
      → Waits e (handle validate ev s)
  unfolding handle send_and_receive
  handle-Waits e (request rand e') s (free, apart) (waits, listens) =
      send_made-Waits e e' (request_of rand e') _ apart
        (waits, listed_more e'.id s.listening listens)
  handle-Waits e (message r) s other w = receive-Waits e r s other w
