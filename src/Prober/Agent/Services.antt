-- ===== src/Prober/Agent/Services.antt =====
-- prober/agent.go: the services of a connected peer, as the group agent asks for them.
use didcomm_prober.Prelude.{
  ◌≡◌, refl, ◌≢◌, Text, ◌==◌, eq_iff, Option, none, some, List, [], ◌∷◌, arith, All, Result, ok,
  err, panic, fail, wrap, ◌>>=◌, if◌then◌else◌,
}
use didcomm_prober.Domain.{Service, Peer}
use didcomm_prober.Prober.Peers.{peer_by_label, peer_by_exch_id}
use didcomm_prober.Prober.Agent.{Prober}

unfoldable pub peer : Text → Prober → Result Peer
peer label p = wrap "no peer found for the label" (peer_by_label label p.peers)

-- the loop of `Service`: a pointer to the first service of the type, nil if there is none
find_service : Text → List Service → Option Service
find_service name [] = none
find_service name (s ∷ ss) = if s.typ == name then some s else find_service name ss

-- `srvc.Type == ""` reads through the pointer.
check_found : Option Service → Result Service
check_found none = panic
check_found (some s) = if s.typ == [] then fail "requested service is not found for peer" else ok s

unfoldable pub service : Text → Text → Prober → Result Service
unfolding find_service check_found
service name peer_label p = do
  pr ← wrap "no peer found" (peer peer_label p)
  check_found (find_service name pr.services)

-- `SyncService` asks again and again until its timeout; `looks` are the states that it sees.
unfoldable pub sync_service : Text → Text → List Prober → Result Service
sync_service name peer_label [] = fail "timedout waiting for the service info"
sync_service name peer_label (p ∷ ps) = elim (service name peer_label p) [
  | ok s ↦ ok s
  | err e ↦ sync_service name peer_label ps
  | panic ↦ panic
]

-- `ValidConn`
unfoldable pub valid_conn : (List (Text × Peer) → List (Text × Peer)) → Text → Prober → Option Peer
valid_conn order exch_id p = elim (peer_by_exch_id order exch_id p.peers) [
  | none ↦ none
  | some (name, pr) ↦ some pr
]

find_service-none :
    (name : Text) (ss : List Service) → All (λ s. s.typ ≢ name) ss → find_service name ss ≡ none
unfolding find_service
find_service-none name [] h = refl
find_service-none name (s ∷ ss) h = ground (arith, eq_iff s.typ name, find_service-none name ss h.1)

-- Asking a connected peer for a service that its DID document does not list is a panic, and not the
-- error that the code prepares for it.
pub service_missing :
    (name label : Text) (p : Prober) (pr : Peer)
    → peer label p ≡ ok pr
    → All (λ s. s.typ ≢ name) pr.services
    → service name label p ≡ panic
unfolding service
service_missing name label p pr known missing =
    rw (known, find_service-none name pr.services missing)
