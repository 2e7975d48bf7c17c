-- ===== src/Prober/Peers.antt =====
-- prober/peers.go and prober/dids.go: the connected peers, and this node's DID for each of them.
use didcomm_prober.Prelude.{
  Text, ◌==◌, Assoc, lookup, insert, Option, none, some, List, [], ◌∷◌, Result, ok, fail,
  if◌then◌else◌, ◌≡◌, ◌≢◌, refl, eq_refl, ◌⊎◌, inl, inr, arith, ap, All, All-perm, All-of_lookup,
  lookup-All, IsMap, IsRange, Bool-cases, eq_iff, lookup-insert, insert-IsMap,
}
use mathlib.Core.List.Permᴰ
use didcomm_prober.Domain.{Peer}
use didcomm_prober.Domain.Messages.{DidDocument}

abbrev pub Peers : Type 0
Peers = Assoc Peer

unfoldable pub add_peer : Text → Peer → Peers → Peers
add_peer label pr ps = insert label pr ps

unfoldable pub peer_by_label : Text → Peers → Result Peer
peer_by_label label ps = elim (lookup label ps) [
  | none ↦ fail "requested peer does not exist in store"
  | some pr ↦ ok pr
]

-- the callback of `Range`: the first peer with the thread id
find_exchange : Text → List (Text × Peer) → Option (Text × Peer)
find_exchange exch_id [] = none
find_exchange exch_id ((name, pr) ∷ rest) =
    if pr.exchange_th_id == exch_id then some (name, pr) else find_exchange exch_id rest

-- `order` is the order of the range over the store.
unfoldable pub peer_by_exch_id :
    (List (Text × Peer) → List (Text × Peer)) → Text → Peers → Option (Text × Peer)
unfolding find_exchange
peer_by_exch_id order exch_id ps = find_exchange exch_id (order ps)

pub record DidStore : Type 0 where
  pub did_map : Assoc Text
  pub did_doc_map : Assoc DidDocument

unfoldable pub add_did : Text → Text → DidDocument → DidStore → DidStore
add_did label did doc d = record {
  did_map = insert label did d.did_map;
  did_doc_map = insert label doc d.did_doc_map;
}

unfoldable pub get_did : Text → DidStore → Result (Text × DidDocument)
get_did label d = elim (lookup label d.did_map) [
  | none ↦ fail "did does not exist"
  | some did ↦ elim (lookup label d.did_doc_map) [
    | none ↦ fail "did-doc does not exist"
    | some doc ↦ ok (did, doc)
  ]
]

find_exchange_cases :
    (id label : Text) (pr : Peer) (es : List (Text × Peer))
    → All (λ e. (e ≡ (label, pr)) ⊎ (e.1.exchange_th_id ≢ id)) es
    → (find_exchange id es ≡ some (label, pr)) ⊎ All (λ e. e.1.exchange_th_id ≢ id) es
unfolding find_exchange
find_exchange_cases id label pr [] h = inr tt
find_exchange_cases id label pr ((name, other) ∷ es) h =
    elim (Bool-cases (other.exchange_th_id == id)) [
      | inl hit ↦ elim h.0 [
        | inl same ↦ inl (rw (find_exchange, hit) (ap some same))
        | inr differs ↦ absurd (differs ((eq_iff other.exchange_th_id id).0 hit))
      ]
      | inr miss ↦ elim (find_exchange_cases id label pr es h.1) [
        | inl found ↦ inl (rw (find_exchange, miss) found)
        | inr none_found ↦ inr (ground (arith, miss, eq_iff other.exchange_th_id id), none_found)
      ]
    ]

abbrev OrAdded : Text → Peer → Text × Peer → Type 0
OrAdded label pr e = (e ≡ (label, pr)) ⊎ (e.1.exchange_th_id ≢ pr.exchange_th_id)

or_added :
    (label : Text) (pr : Peer) (ps : Peers)
    → IsMap ps
    → All (λ e. e.1.exchange_th_id ≢ pr.exchange_th_id) ps
    → (name : Text) (other : Peer) → lookup name (insert label pr ps) ≡ some other
    → OrAdded label pr (name, other)
or_added label pr ps distinct fresh name other stored = elim (Bool-cases (label == name)) [
  | inl hit ↦
      let e : label ≡ name = (eq_iff label name).0 hit in
      let same : pr ≡ other = ground (arith, hit, stored, lookup-insert label name pr ps) in
      inl (rw (e, same) refl)
  | inr miss ↦ inr (
      lookup-All (λ e. e.1.exchange_th_id ≢ pr.exchange_th_id) ps name other fresh
        (ground (arith, miss, stored, lookup-insert label name pr ps)))
]

-- A peer that is added under a thread id that no other peer has is found by the thread id, in whatever
-- order the store is visited.
pub peer_by_exch_id-add :
    (order : List (Text × Peer) → List (Text × Peer)) (label : Text) (pr : Peer) (ps : Peers)
    → IsRange order
    → IsMap ps
    → All (λ e. e.1.exchange_th_id ≢ pr.exchange_th_id) ps
    → peer_by_exch_id order pr.exchange_th_id (add_peer label pr ps) ≡ some (label, pr)
unfolding peer_by_exch_id add_peer
peer_by_exch_id-add order label pr ps ranges distinct fresh =
    let wide = insert-IsMap label pr ps distinct in
    let added =
      All-of_lookup (OrAdded label pr) (insert label pr ps) wide
        (or_added label pr ps distinct fresh) in
    let visited = All-perm (OrAdded label pr) (ranges (insert label pr ps)) added in
    elim (find_exchange_cases pr.exchange_th_id label pr (order (insert label pr ps)) visited) [
      | inl found ↦ found
      | inr missed ↦ absurd (
          lookup-All (λ e. e.1.exchange_th_id ≢ pr.exchange_th_id) (insert label pr ps) label pr
            (All-perm (λ e. e.1.exchange_th_id ≢ pr.exchange_th_id)
              (Permᴰ.symm (ranges (insert label pr ps))) missed)
            (ground (arith, lookup-insert label label pr ps, eq_refl label)) refl)
    ]
