-- ===== src/Channels/Answering.antt =====
-- A request on the channel and its answer, among any others.
use enigma_p2p.Base.{
  String, ◌≡◌, refl, sym, ap, ◌∙◌, subst, Option, none, some, List, [], ◌∷◌, ◌++◌, inl, arith,
  eq_iff, All,
}
use enigma_p2p.Base.Dict
use enigma_p2p.Base.Dict.{get-put_self}
use enigma_p2p.Channels.Envelop.{Envelop}
use enigma_p2p.Channels.Ipc.{
  CoreRequest, CoreResponse, Answer, answered, call_threw, key_of, fill_id, missing_id,
  send_to_core, on_message,
}
use enigma_p2p.Channels.Runtime.{
  Made, made, nothing_made, make_threw, request_of, Channel, Event, request, message, send_made,
  send_and_receive, receive, emit_all, handle, handle_all, idle_channel,
}
use enigma_p2p.Channels.Emit.{emit_answer_kept, emit_answer_new, emit_all_kept}
use enigma_p2p.Channels.Callbacks.{Foreign-put}
use enigma_p2p.Channels.Matching.{Unrelated, Quiet, Waits, handle-Quiet, handle-Waits}

module _ (validate : CoreRequest → Option CoreRequest) where
  handle_all-append :
      (evs more : List (Event validate)) (s : Channel validate)
      → handle_all validate (evs ++ more) s ≡ handle_all validate more (handle_all validate evs s)
  unfolding handle_all
  handle_all-append [] more s = refl
  handle_all-append (ev ∷ evs) more s = handle_all-append evs more (handle validate ev s)

  handle_all-Quiet :
      (k i : String) (evs : List (Event validate)) (s : Channel validate)
      → All (Unrelated validate k i) evs
      → Quiet validate k i s
      → Quiet validate k i (handle_all validate evs s)
  unfolding handle_all
  handle_all-Quiet k i [] s h quiet = quiet
  handle_all-Quiet k i (ev ∷ evs) s h quiet =
      handle_all-Quiet k i evs (handle validate ev s) h.1 (handle-Quiet validate k i ev s h.0 quiet)

  handle_all-Waits :
      (k i : String) (e : Envelop) (evs : List (Event validate)) (s : Channel validate)
      → All (Unrelated validate k i) evs
      → Waits validate k i e s
      → Waits validate k i e (handle_all validate evs s)
  unfolding handle_all
  handle_all-Waits k i e [] s h w = w
  handle_all-Waits k i e (ev ∷ evs) s h w =
      handle_all-Waits k i e evs (handle validate ev s) h.1 (handle-Waits validate k i e ev s h.0 w)

  send_made_kept :
      (i : String) (a : Answer) (e : Envelop) (m : Made) (s : Channel validate)
      → Dict.get i s.emitted ≡ some a
      → Dict.get i (send_made validate e m s).emitted ≡ some a
  unfolding send_made
  send_made_kept i a e nothing_made s h = h
  send_made_kept i a e make_threw s h = emit_answer_kept validate i e.id call_threw a s h
  send_made_kept i a e (made r) s h =
      emit_all_kept validate i (send_to_core validate e r s.client).1 a
        (record s { client = (send_to_core validate e r s.client).0 }) h

  handle_all_kept :
      (i : String) (a : Answer) (evs : List (Event validate)) (s : Channel validate)
      → Dict.get i s.emitted ≡ some a
      → Dict.get i (handle_all validate evs s).emitted ≡ some a
  unfolding handle_all handle send_and_receive receive
  handle_all_kept i a [] s h = h
  handle_all_kept i a (request rand e ∷ evs) s h =
      handle_all_kept i a evs (handle validate (request rand e) s)
        (send_made_kept i a e (request_of rand e) _ h)
  handle_all_kept i a (message r ∷ evs) s h =
      handle_all_kept i a evs (handle validate (message r) s) (
        emit_all_kept validate i (on_message r s.client).1 a
          (record s { client = (on_message r s.client).0 }) h)

  handle_request :
      (rand i k : String) (e : Envelop) (r final : CoreRequest) (s : Channel validate)
      → e.id ≡ some i
      → request_of rand e ≡ made r
      → (fill_id e r).id ≡ some k
      → validate (fill_id e r) ≡ some final
      → handle validate (request rand e) s ≡ record s {
        client = record {
          msg_mapping = Dict.put k (some e) s.client.msg_mapping;
          sent = s.client.sent ++ final ∷ [];
        };
        listening = i ∷ s.listening;
      }
  unfolding handle send_and_receive send_made send_to_core key_of missing_id emit_all
  handle_request rand i k e r final s own makes named fine = ground (arith, own, makes, named, fine)

  handle_message :
      (i : String) (e : Envelop) (resp : CoreResponse) (s : Channel validate)
      → e.id ≡ some i
      → Quiet validate resp.id i s
      → Waits validate resp.id i e s
      → Dict.get i (handle validate (message resp) s).emitted ≡ some (answered resp)
  unfolding handle receive on_message emit_all
  handle_message i e resp s own (_, quiet) (waits, listens) =
      let is : on_message resp s.client ≡ (
        record s.client { msg_mapping = Dict.put resp.id none s.client.msg_mapping },
        (e, answered resp) ∷ [],
      ) =
        rw (waits, on_message) refl in
      rw is (
        rw own (
          emit_answer_new validate i (answered resp)
            (record s {
              client = record s.client { msg_mapping = Dict.put resp.id none s.client.msg_mapping };
            })
            listens quiet))

  idle-Quiet : (k i : String) → Quiet validate k i (idle_channel validate)
  unfolding Dict.get
  idle-Quiet k i = (λ j e other found. absurd (cc found), refl)

  -- A request that makes a message for Core gets the response with the id of the message, whatever
  -- else goes over the channel: if the message is valid, and until its response arrives no other event
  -- uses that id or the one of the envelope, then the promise of the request has that response, and
  -- later events leave it so.
  pub request_answered :
      (before between later : List (Event validate)) (rand i : String) (e : Envelop)
      (r final : CoreRequest) (resp : CoreResponse)
      → e.id ≡ some i
      → request_of rand e ≡ made r
      → (fill_id e r).id ≡ some resp.id
      → validate (fill_id e r) ≡ some final
      → All (Unrelated validate resp.id i) before
      → All (Unrelated validate resp.id i) between
      → Dict.get i
          (handle_all validate
            (before ++ (request rand e ∷ (between ++ message resp ∷ later)))
            (idle_channel validate)).emitted
        ≡ some (answered resp)
  unfolding handle_all
  request_answered before between later rand i e r final resp own makes named fine h1 h2 =
      let k : String = resp.id in
      let s1 : Channel validate = handle_all validate before (idle_channel validate) in
      let s2 : Channel validate = handle validate (request rand e) s1 in
      let s3 : Channel validate = handle_all validate between s2 in
      let (foreign, quiet) =
        handle_all-Quiet k i before (idle_channel validate) h1 (idle-Quiet k i) in
      let asked = handle_request rand i k e r final s1 own makes named fine in
      let quiet2 : Quiet validate k i s2 =
        subst (Quiet validate k i) (sym asked)
          (Foreign-put k i k (some e) s1.client.msg_mapping (λ e' same. inl refl) foreign, quiet) in
      let waits2 : Waits validate k i e s2 =
        subst (Waits validate k i e) (sym asked)
          (get-put_self k (some e) s1.client.msg_mapping, ground (arith, eq_iff i i)) in
      let answer : Dict.get i (handle validate (message resp) s3).emitted ≡ some (answered resp) =
        handle_message i e resp s3 own (handle_all-Quiet k i between s2 h2 quiet2)
          (handle_all-Waits k i e between s2 h2 waits2) in
      let rest : List (Event validate) = request rand e ∷ (between ++ message resp ∷ later) in
      let split : handle_all validate (before ++ rest) (idle_channel validate)
          ≡ handle_all validate later (handle validate (message resp) s3) =
        handle_all-append before rest (idle_channel validate)
        ∙ handle_all-append between (message resp ∷ later) s2 in
      ap (λ (s : Channel validate). Dict.get i s.emitted) split
      ∙ handle_all_kept i (answered resp) later (handle validate (message resp) s3) answer
