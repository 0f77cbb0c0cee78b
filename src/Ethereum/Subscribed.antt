-- ===== src/Ethereum/Subscribed.antt =====
-- The delivery of an event in src/ethereum/EnigmaContractReaderAPI.js.
use enigma_p2p.Base.{
  ℕ, ◌+◌, ◌≡◌, refl, Bool, true, false, List, [], ◌∷◌, ◌||◌, leb, if◌then◌else◌, arith,
}
use enigma_p2p.Ethereum.Reader.{
  HeaderEvent, header_error, header_changed, subscription_error, header, Subscriber, on_header,
  on_headers, subscribe_event,
}

-- A header that confirms the event is among those that arrive.
abbrev pub is_confirmed : ℕ → List HeaderEvent → Bool
is_confirmed confirmed [] = false
is_confirmed confirmed (header n ∷ hs) = leb confirmed n || is_confirmed confirmed hs
is_confirmed confirmed (_ ∷ hs) = is_confirmed confirmed hs

on_headers_closed :
    (confirmed : ℕ) (hs : List HeaderEvent) (s : Subscriber)
    → s.is_open ≡ false
    → on_headers confirmed hs s ≡ s
unfolding on_headers on_header
on_headers_closed confirmed [] s closed = refl
on_headers_closed confirmed (header_error ∷ hs) s closed = on_headers_closed confirmed hs s closed
on_headers_closed confirmed (header_changed ∷ hs) s closed = on_headers_closed confirmed hs s closed
on_headers_closed confirmed (subscription_error ∷ hs) s closed =
    ground (arith, closed, on_headers_closed confirmed hs s closed)
on_headers_closed confirmed (header n ∷ hs) s closed =
    ground (arith, closed, on_headers_closed confirmed hs s closed)

on_headers_open :
    (confirmed : ℕ) (hs : List HeaderEvent) (s : Subscriber)
    → s.is_open ≡ true
    → (on_headers confirmed hs s).delivered
      ≡ s.delivered + (if is_confirmed confirmed hs then 1 else 0)
unfolding on_headers on_header
on_headers_open confirmed [] s opened = omega arith
on_headers_open confirmed (header_error ∷ hs) s opened = on_headers_open confirmed hs s opened
on_headers_open confirmed (header_changed ∷ hs) s opened = on_headers_open confirmed hs s opened
on_headers_open confirmed (subscription_error ∷ hs) s opened =
    ground (arith, opened, on_headers_open confirmed hs (record s { errors = s.errors + 1 }) opened)
on_headers_open confirmed (header n ∷ hs) s opened = ground (
  arith,
  opened,
  on_headers_closed confirmed hs (record s { is_open = false; delivered = s.delivered + 1 }) refl,
  on_headers_open confirmed hs s opened,
)

-- An event is delivered once if a header arrives that is as many blocks later as the worker asks for,
-- and never otherwise, whatever errors and changes there are on the way.
pub subscribe_event_once :
    (min current : ℕ) (hs : List HeaderEvent)
    → (subscribe_event min current hs).delivered
      ≡ (if is_confirmed (current + min) hs then 1 else 0)
unfolding subscribe_event
subscribe_event_once min current hs =
    let fresh : Subscriber = record { is_open = true; delivered = 0; errors = 0 } in
    ground (arith, on_headers_open (current + min) hs fresh refl)
