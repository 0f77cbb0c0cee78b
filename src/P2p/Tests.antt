-- ===== src/P2p/Tests.antt =====
-- The theorem of P2p at a worker "b" that asks the worker "a" for two peers.
use enigma_p2p.Base.{String, ◌≡◌, refl, none, some, List, [], ◌∷◌, take}
use enigma_p2p.P2p.Messages.{RawMsg}
use enigma_p2p.P2p.Node.{Chosen, find_peers, peers_of, peers_found, find_peers_answered}

abbrev book : List String
book = "b" ∷ "c" ∷ "d" ∷ []

find_peers_answered_example :
    (request response : RawMsg) × (sent : List String) × (find_peers "r" "b" "a" 2
        (peers_of take "a" book)
      ≡ peers_found request response)
    × (response.result ≡ some (record { from = "a"; to = "b"; type = none; peers = some sent }))
    × Chosen take 2 book sent
find_peers_answered_example = find_peers_answered take "r" "b" "a" 2 book refl
