-- ===== src/Channels/Emit.antt =====
-- What emitting answers changes: the promise of one id has its first answer, and no other is touched.
use enigma_p2p.Base.{
  String, ◌≡◌, ◌≢◌, refl, ap, true, Option, none, some, [], ◌∷◌, ◌++◌, arith, eq_iff, All,
}
use enigma_p2p.Base.Dict
use enigma_p2p.Base.Dict.{Dict}
use enigma_p2p.Channels.Envelop.{Envelop}
use enigma_p2p.Channels.Ipc.{CoreRequest, Answer, Answers}
use enigma_p2p.Channels.Runtime.{Channel, emit_answer, emit_all}

module _ {V : Type 0} where
  pub get-append_kept :
      (k : String) (m n : Dict V) (v : V) → Dict.get k m ≡ some v → Dict.get k (m ++ n) ≡ some v
  unfolding Dict.get
  get-append_kept k [] n v e = cc e
  get-append_kept k ((j, w) ∷ m) n v e = ground (arith, e, get-append_kept k m n v)

  pub get-append_new :
      (k : String) (m : Dict V) (v : V)
      → Dict.get k m ≡ none
      → Dict.get k (m ++ (k, v) ∷ []) ≡ some v
  unfolding Dict.get
  get-append_new k [] v e = ground (arith, eq_iff k k)
  get-append_new k ((j, w) ∷ m) v e = ground (arith, e, get-append_new k m v)

  pub get-append_other :
      (k j : String) (m : Dict V) (v : V) → k ≢ j → Dict.get k (m ++ (j, v) ∷ []) ≡ Dict.get k m
  unfolding Dict.get
  get-append_other k j [] v other = ground (arith, eq_iff j k, other)
  get-append_other k j ((i, w) ∷ m) v other = ground (arith, get-append_other k j m v other)

module _ (validate : CoreRequest → Option CoreRequest) where
  pub emit_answer_client :
      (o : Option String) (a : Answer) (s : Channel validate)
      → (emit_answer validate o a s).client ≡ s.client
  unfolding emit_answer
  emit_answer_client none a s = refl
  emit_answer_client (some i) a s = ground arith

  pub emit_answer_listening :
      (o : Option String) (a : Answer) (s : Channel validate)
      → (emit_answer validate o a s).listening ≡ s.listening
  unfolding emit_answer
  emit_answer_listening none a s = refl
  emit_answer_listening (some i) a s = ground arith

  pub emit_answer_other :
      (i : String) (o : Option String) (a : Answer) (s : Channel validate)
      → o ≢ some i
      → Dict.get i (emit_answer validate o a s).emitted ≡ Dict.get i s.emitted
  unfolding emit_answer
  emit_answer_other i none a s other = refl
  emit_answer_other i (some j) a s other =
      ground (arith, get-append_other i j s.emitted a (λ e. other (ap some (cc e))))

  pub emit_answer_kept :
      (i : String) (o : Option String) (a b : Answer) (s : Channel validate)
      → Dict.get i s.emitted ≡ some b
      → Dict.get i (emit_answer validate o a s).emitted ≡ some b
  unfolding emit_answer
  emit_answer_kept i none a b s e = e
  emit_answer_kept i (some j) a b s e =
      ground (arith, e, get-append_kept i s.emitted ((j, a) ∷ []) b e)

  pub emit_answer_new :
      (i : String) (a : Answer) (s : Channel validate)
      → Dict.listed i s.listening ≡ true
      → Dict.get i s.emitted ≡ none
      → Dict.get i (emit_answer validate (some i) a s).emitted ≡ some a
  unfolding emit_answer
  emit_answer_new i a s listens e = rw listens (get-append_new i s.emitted a e)

  pub emit_all_client :
      (answers : Answers) (s : Channel validate) → (emit_all validate answers s).client ≡ s.client
  unfolding emit_all
  emit_all_client [] s = refl
  emit_all_client ((e, a) ∷ rest) s =
      ground
        (arith, emit_answer_client e.id a s, emit_all_client rest (emit_answer validate e.id a s))

  pub emit_all_listening :
      (answers : Answers) (s : Channel validate)
      → (emit_all validate answers s).listening ≡ s.listening
  unfolding emit_all
  emit_all_listening [] s = refl
  emit_all_listening ((e, a) ∷ rest) s = ground (
    arith,
    emit_answer_listening e.id a s,
    emit_all_listening rest (emit_answer validate e.id a s),
  )

  pub emit_all_other :
      (i : String) (answers : Answers) (s : Channel validate)
      → All (λ (x : Envelop × Answer). x.0.id ≢ some i) answers
      → Dict.get i (emit_all validate answers s).emitted ≡ Dict.get i s.emitted
  unfolding emit_all
  emit_all_other i [] s h = refl
  emit_all_other i ((e, a) ∷ rest) s h = ground (
    arith,
    emit_answer_other i e.id a s h.0,
    emit_all_other i rest (emit_answer validate e.id a s) h.1,
  )

  pub emit_all_kept :
      (i : String) (answers : Answers) (b : Answer) (s : Channel validate)
      → Dict.get i s.emitted ≡ some b
      → Dict.get i (emit_all validate answers s).emitted ≡ some b
  unfolding emit_all
  emit_all_kept i [] b s h = h
  emit_all_kept i ((e, a) ∷ rest) b s h =
      emit_all_kept i rest b (emit_answer validate e.id a s) (emit_answer_kept i e.id a b s h)
