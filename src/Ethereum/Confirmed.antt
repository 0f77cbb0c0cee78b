-- ===== src/Ethereum/Confirmed.antt =====
-- How deep a transaction is in the chain when EnigmaContractWriterAPI.js reports it, and what a commit
-- by CommitReceiptAction.js rests on.
use enigma_p2p.Base.{
  ℕ, ◌≤◌, ◌≡◌, ◌≢◌, ◌↔◌, ◌⊎◌, inl, inr, refl, sym, ap, ◌∙◌, Bool, true, false, Option, none, some,
  List, [], ◌∷◌, ◌++◌, arith, All,
}
use enigma_p2p.Actions.Commit.{ChainCall, mined}
use enigma_p2p.Ethereum.Writer.{
  TxStep, ContractEvent, TxEvent, tx_error, tx_receipt, tx_confirmation, rejects, resolves, waits,
  on_tx_event, tx_outcome, receipt_failed_eth, event_of, is_failure_call, resolve_logic, Network,
  send_call,
}

-- An event after which the result counts: the receipt where no confirmation is wanted, or enough
-- confirmations.
abbrev pub Enough : Option ℕ → TxEvent → Type 0
Enough min tx_error = ⊥
Enough min tx_receipt = (min ≡ none) ⊎ (min ≡ some 0)
Enough min (tx_confirmation k) = (n : ℕ) × (min ≡ some n) × (n ≤ k)

-- Such an event comes before any error.
abbrev pub Deep : Option ℕ → List TxEvent → Type 0
Deep min es =
    (before after : List TxEvent) × (e : TxEvent) × (es ≡ before ++ e ∷ after)
    × All (λ x. x ≢ tx_error) before
    × Enough min e

Enough-resolves : (min : Option ℕ) (e : TxEvent) → Enough min e ↔ (on_tx_event min e ≡ resolves)
unfolding on_tx_event
Enough-resolves min e = (to min e, from min e)
  where
    to : (min : Option ℕ) (e : TxEvent) → Enough min e → on_tx_event min e ≡ resolves
    to min tx_error h = absurd h
    to none tx_receipt h = refl
    to (some n) tx_receipt h = ground (arith, h)
    to none (tx_confirmation k) h = ground (arith, h)
    to (some n) (tx_confirmation k) h = ground (arith, h)

    from : (min : Option ℕ) (e : TxEvent) → on_tx_event min e ≡ resolves → Enough min e
    from min tx_error h = absurd (ground (arith, h))
    from none tx_receipt h = inl refl
    from (some n) tx_receipt h = inr (ground (arith, h))
    from none (tx_confirmation k) h = absurd (ground (arith, h))
    from (some n) (tx_confirmation k) h = (n, refl, ground (arith, h))

TxStep-cases : (s : TxStep) → (s ≡ rejects) ⊎ (s ≡ resolves) ⊎ (s ≡ waits)
TxStep-cases rejects = inl refl
TxStep-cases resolves = inr (inl refl)
TxStep-cases waits = inr (inr refl)

error_rejects : (min : Option ℕ) (e : TxEvent) → e ≡ tx_error → on_tx_event min e ≡ rejects
unfolding on_tx_event
error_rejects min e h = ap (on_tx_event min) h

waits_no_error : (min : Option ℕ) (e : TxEvent) → on_tx_event min e ≡ waits → e ≢ tx_error
waits_no_error min e h error = cc (error_rejects min e error)

other_events : (min : Option ℕ) (e : TxEvent) → e ≢ tx_error → on_tx_event min e ≢ rejects
unfolding on_tx_event
other_events min tx_error h r = absurd (h refl)
other_events none tx_receipt h r = cc r
other_events (some n) tx_receipt h r = ground (arith, r)
other_events none (tx_confirmation k) h r = cc r
other_events (some n) (tx_confirmation k) h r = ground (arith, r)

outcome_head :
    (min : Option ℕ) (e : TxEvent) (es : List TxEvent)
    → on_tx_event min e ≡ resolves
    → tx_outcome min (e ∷ es) ≡ some resolves
unfolding tx_outcome
outcome_head min e es h = ground (arith, h)

outcome_tail :
    (min : Option ℕ) (e : TxEvent) (es : List TxEvent)
    → on_tx_event min e ≡ waits
    → tx_outcome min (e ∷ es) ≡ tx_outcome min es
unfolding tx_outcome
outcome_tail min e es h = ground (arith, h)

outcome_error :
    (min : Option ℕ) (e : TxEvent) (es : List TxEvent)
    → on_tx_event min e ≡ rejects
    → tx_outcome min (e ∷ es) ≡ some rejects
unfolding tx_outcome
outcome_error min e es h = ground (arith, h)

resolves-Deep :
    (min : Option ℕ) (es : List TxEvent) → tx_outcome min es ≡ some resolves → Deep min es
unfolding tx_outcome
resolves-Deep min [] h = cc h
resolves-Deep min (e ∷ es) h = elim (TxStep-cases (on_tx_event min e)) [
  | inl error ↦ absurd (ground (arith, h, outcome_error min e es error))
  | inr (inl now) ↦ ([], es, e, refl, tt, (Enough-resolves min e).1 now)
  | inr (inr later) ↦
      let (before, after, e', split, clean, enough) =
        resolves-Deep min es (sym (outcome_tail min e es later) ∙ h) in
      (e ∷ before, after, e', ap (λ l. e ∷ l) split, (waits_no_error min e later, clean), enough)
]

Deep-resolves :
    (min : Option ℕ) (before after : List TxEvent) (e : TxEvent)
    → All (λ x. x ≢ tx_error) before
    → Enough min e
    → tx_outcome min (before ++ e ∷ after) ≡ some resolves
Deep-resolves min [] after e clean enough =
    outcome_head min e after ((Enough-resolves min e).0 enough)
Deep-resolves min (b ∷ before) after e clean enough = elim (TxStep-cases (on_tx_event min b)) [
  | inl error ↦ absurd (other_events min b clean.0 error)
  | inr (inl now) ↦ outcome_head min b (before ++ e ∷ after) now
  | inr (inr later) ↦
      outcome_tail min b (before ++ e ∷ after) later
      ∙ Deep-resolves min before after e clean.1 enough
]

pub tx_outcome-Deep :
    (min : Option ℕ) (es : List TxEvent) → (tx_outcome min es ≡ some resolves) ↔ Deep min es
tx_outcome-Deep min es = (
  resolves-Deep min es,
  λ (before, after, e, split, clean, enough).
      ap (tx_outcome min) split ∙ Deep-resolves min before after e clean enough,
)

-- A call that the writer reports as mined.
pub send_call-mined :
    (min : Option ℕ) (net : Network) (call : ChainCall) (failed : Bool)
    → send_call min net call ≡ some (mined failed)
    → Deep min (net.events call) × (resolve_logic call (net.found call) ≡ some (mined failed))
unfolding send_call
send_call-mined min net call failed h = go (tx_outcome min (net.events call)) refl
  where
    go :
        (o : Option TxStep)
        → tx_outcome min (net.events call) ≡ o
        → Deep min (net.events call) × (resolve_logic call (net.found call) ≡ some (mined failed))
    go none e = absurd (ground (arith, e, h))
    go (some rejects) e = absurd (ground (arith, e, h))
    go (some waits) e = absurd (ground (arith, e, h))
    go (some resolves) e = (resolves-Deep min (net.events call) e, ground (arith, e, h))

pub resolve_logic-failed :
    (call : ChainCall) (found : ContractEvent → Option Bool)
    → resolve_logic call found ≡ some (mined true)
    → found receipt_failed_eth ≡ some true
unfolding resolve_logic
resolve_logic-failed call found h = ground (arith, h)

pub resolve_logic-took :
    (call : ChainCall) (found : ContractEvent → Option Bool)
    → is_failure_call call ≡ false
    → resolve_logic call found ≡ some (mined false)
    → (found (event_of call) ≡ some true) ⊎ (found receipt_failed_eth ≡ some false)
unfolding resolve_logic
resolve_logic-took call found result h = ground (arith, result, h)
