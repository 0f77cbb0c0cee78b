-- ===== src/Sync/Covered.antt =====
-- The ranges that LocalMissingStatesResult.js asks for.
use Prim.Native.Nat.{min}
use enigma_p2p.Base.{
  ℕ, zero, suc, ◌+◌, ◌-◌, ◌*◌, ◌/◌, ◌≤◌, ◌<◌, String, ◌≡◌, refl, ap, subst, ◌∙◌, some, List, [],
  ◌∷◌, length, take, drop, arith, length-take, length-drop,
}
use enigma_p2p.Sync.Compare.{MissingDelta, missing_deltas}
use enigma_p2p.Sync.Ranges.{
  Range, range_limit, last_delta, range_of, ranges_from, buckets, parse_state_req_msgs,
}

-- The ranges, each of at most `range_limit` deltas and none empty, follow one another from `start`
-- to `end`.
abbrev pub Covers : String → ℕ → ℕ → List Range → Type 0
Covers address start end [] = start ≡ end
Covers address start end (r ∷ rs) =
    (r.contract_address ≡ address)
    × (r.from_index ≡ start)
    × (start < r.to_index)
    × (r.to_index ≤ start + range_limit)
    × Covers address r.to_index end rs

pub length-missing_deltas : (s : ℕ) (hs : List String) → length (missing_deltas s hs) ≡ length hs
unfolding missing_deltas
length-missing_deltas s [] = refl
length-missing_deltas s (h ∷ hs) = ap suc (length-missing_deltas (suc s) hs)

take-missing_deltas :
    (n s : ℕ) (hs : List String) → take n (missing_deltas s hs) ≡ missing_deltas s (take n hs)
unfolding missing_deltas
take-missing_deltas zero s hs = refl
take-missing_deltas (suc n) s [] = refl
take-missing_deltas (suc n) s (h ∷ hs) =
    ap (λ l. record { delta_hash = h; index = s } ∷ l) (take-missing_deltas n (suc s) hs)

drop-missing_deltas :
    (n s : ℕ) (hs : List String) → drop n (missing_deltas s hs) ≡ missing_deltas (s + n) (drop n hs)
unfolding missing_deltas
drop-missing_deltas zero s hs = ap (λ i. missing_deltas i hs) (omega arith)
drop-missing_deltas (suc n) s [] = refl
drop-missing_deltas (suc n) s (h ∷ hs) =
    drop-missing_deltas n (suc s) hs ∙ ap (λ i. missing_deltas i (drop n hs)) (omega arith)

last_delta-index :
    (d : MissingDelta) (hs : List String)
    → (last_delta d (missing_deltas (suc d.index) hs)).index ≡ d.index + length hs
unfolding last_delta missing_deltas
last_delta-index d [] = omega arith
last_delta-index d (h ∷ hs) =
    omega (arith, last_delta-index (record { delta_hash = h; index = suc d.index }) hs)

-- A range over a part of the deltas, not empty.
range_of-part :
    (address : String) (s : ℕ) (hs : List String)
    → 0 < length hs
    → (r : Range) × (range_of address (missing_deltas s hs) ≡ some r)
      × (r.contract_address ≡ address)
      × (r.from_index ≡ s)
      × (r.to_index ≡ s + length hs)
unfolding range_of missing_deltas
range_of-part address s [] pos = absurd (omega arith)
range_of-part address s (h ∷ hs) pos =
    (_, refl, refl, refl, omega (arith, last_delta-index (record { delta_hash = h; index = s }) hs))

ranges_from_step :
    (left begin end : ℕ) (address : String) (deltas : List MissingDelta) (r : Range)
    (rs : List Range)
    → min (begin + range_limit) (length deltas) ≡ end
    → range_of address (take (end - begin) (drop begin deltas)) ≡ some r
    → ranges_from left range_limit end address deltas ≡ some rs
    → ranges_from (suc left) range_limit begin address deltas ≡ some (r ∷ rs)
unfolding ranges_from
ranges_from_step left begin end address deltas r rs at here later = rw at (rw (here, later) refl)

slice-missing_deltas :
    (m b s : ℕ) (hs : List String)
    → take m (drop b (missing_deltas s hs)) ≡ missing_deltas (s + b) (take m (drop b hs))
slice-missing_deltas m b s hs =
    ap (take m) (drop-missing_deltas b s hs) ∙ take-missing_deltas m (s + b) (drop b hs)

ranges_from-Covers :
    (left begin s : ℕ) (address : String) (hs : List String)
    → begin ≤ length hs
    → length hs ≤ begin + left * 10
    → begin + left * 10 < length hs + 10
    → (rs : List Range) × (ranges_from left range_limit begin address (missing_deltas s hs)
        ≡ some rs)
      × Covers address (s + begin) (s + length hs) rs
ranges_from-Covers zero begin s address hs a b c = ([], unfold ranges_from in refl, omega arith)
ranges_from-Covers (suc left) begin s address hs a b c =
    let n : ℕ = length hs in
    let end : ℕ = min (begin + range_limit) n in
    let part : List String = take (end - begin) (drop begin hs) in
    let size : length part ≡ end - begin =
      omega (arith, length-take (end - begin) (drop begin hs), length-drop begin hs) in
    let (r, built, named, from, to) =
      range_of-part address (s + begin) part (omega (arith, size)) in
    let (rs, rest, covers) =
      ranges_from-Covers left end s address hs (omega arith) (omega arith) (omega arith) in
    let next : s + end ≡ r.to_index = omega (arith, to, size) in
    (
      r ∷ rs,
      ranges_from_step left begin end address (missing_deltas s hs) r rs
          (ap (min (begin + range_limit)) (length-missing_deltas s hs))
          (ap (range_of address) (slice-missing_deltas (end - begin) begin s hs) ∙ built) rest,
      (
        named,
        from,
        omega (arith, to, size),
        omega (arith, to, size),
        subst (λ i. Covers address i (s + n) rs) next covers,
      ),
    )

-- The requests for a contract's deltas: for `n` deltas, numbered on from `start`, they are built
-- without an exception, and their ranges follow one another from `start` to `start + n`, none empty
-- and none of more than `range_limit` deltas.
pub parse_state_req_msgs-Covers :
    (address : String) (start : ℕ) (hs : List String)
    → (rs : List Range) × (parse_state_req_msgs address (missing_deltas start hs) ≡ some rs)
      × Covers address start (start + length hs) rs
unfolding parse_state_req_msgs buckets
parse_state_req_msgs-Covers address start hs =
    let n : ℕ = length hs in
    let (rs, built, covers) =
      ranges_from-Covers ((n + 9) / 10) 0 start address hs (omega arith) (omega arith)
        (omega arith) in
    let at : start + 0 ≡ start = omega arith in
    (
      rs,
      rw (length-missing_deltas start hs) built,
      subst (λ i. Covers address i (start + n) rs) at covers,
    )
