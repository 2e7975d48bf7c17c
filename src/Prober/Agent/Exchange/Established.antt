-- ===== src/Prober/Agent/Exchange/Established.antt =====
-- prober/agent.go: the connection that a DID exchange between two probers establishes.
use didcomm_prober.Prelude.{
  ℕ, ◌≡◌, ◌≢◌, refl, sym, ap, ◌∙◌, Text, List, [], All, Option, some, Result, ok, lookup, IsMap,
  IsRange, ok-eq,
}
use didcomm_prober.Domain.{Peer, conn_req, conn_res, retry_count}
use didcomm_prober.Domain.Messages.{InvitationMsg, ReadsBack}
use didcomm_prober.Crypto.Keys.{inv_public_key, inv_private_key}
use didcomm_prober.DidComm.Invitation.{parse_inv}
use didcomm_prober.Prober.Peers.{add_peer, peer_by_exch_id, peer_by_exch_id-add}
use didcomm_prober.Prober.Agent.{Prober, Env, Fresh}
use didcomm_prober.Prober.Agent.Exchange.{
  new_peer, Request, Response, request, response, own_services, accept, process_conn_req,
  process_conn_res, note_peer, first_look,
}
use didcomm_prober.Prober.Agent.Exchange.Documents.{IsFaithful}
use didcomm_prober.Prober.Agent.Exchange.Prepared.{
  prepared, public_key-keyed, private_key-keyed, lookup-insert_same,
}
use didcomm_prober.Prober.Agent.Exchange.Made.{IsRequest, request-done, response-done}
use didcomm_prober.Prober.Agent.Exchange.Connected.{
  IsReadable, pair_of, response-request, process_conn_res-response,
}

module _ (e : Env) where
  -- the store of the invitee as the looks of `processConnRes` find it, once `Accept` is done
  abbrev pub looks_of :
      (List (Text × Peer) → List (Text × Peer)) → Prober → Text → ℕ → Option (Text × Peer)
  looks_of order p th_id n = peer_by_exch_id order th_id p.peers

  accept-request :
      (f : Fresh) (enc_inv ack : Text) (p q : Prober) (r : Request)
      → request e f enc_inv p ≡ (ok r, q)
      → e.send conn_req r.content r.endpoint ≡ ok ack
      → accept e f enc_inv p ≡ (
        ok r.inviter,
        record q { peers = add_peer r.inviter (new_peer r.inviter_did r.msg.th_id []) q.peers },
      )
  unfolding accept note_peer
  accept-request f enc_inv ack p q r asked sent = rw (asked, sent) refl

  process_conn_req-response :
      (f : Fresh) (content ack : Text) (p q : Prober) (w : Response)
      → response e f content p ≡ (ok w, q)
      → e.send conn_res w.content w.endpoint ≡ ok ack
      → process_conn_req e f content p
        ≡ (ok tt, record q { peers = add_peer w.peer_label w.peer q.peers })
  unfolding process_conn_req note_peer
  process_conn_req-response f content ack p q w answered sent = rw (answered, sent) refl

module _ (e : Env) (public_of : Text → Text) (laws : IsFaithful e.libs public_of)
    (bob alice bob_asked alice_ready : Prober) (fb fa : Fresh) (x y v enc_inv ack ack_2 : Text)
    (r : Request) (w : Response) (bob_drew : fb.pair ≡ ok (pair_of e public_of laws x))
    (alice_drew : fa.pair ≡ ok (pair_of e public_of laws y))
    (asked : request e fb enc_inv bob ≡ (ok r, bob_asked))
    (sent : e.send conn_req r.content r.endpoint ≡ ok ack)
    (answered : response e fa r.content alice ≡ (ok w, alice_ready))
    (sent_back : e.send conn_res w.content w.endpoint ≡ ok ack_2) (inv : InvitationMsg)
    (invited : parse_inv e.url e.libs.base e.invs enc_inv ≡ ok (inv, r.endpoint, public_of v))
    (holds_public : inv_public_key alice.ks ≡ ok (public_of v))
    (holds_private : inv_private_key alice.ks ≡ ok v) (r_readable : IsReadable e r.doc r.enc_doc)
    (r_reads : ReadsBack e.reqs r.msg) (w_readable : IsReadable e w.doc w.enc_doc)
    (w_reads : ReadsBack e.ress w.msg) (order : List (Text × Peer) → List (Text × Peer))
    (ranges : IsRange order) (distinct : IsMap bob.peers)
    (fresh : All (λ p. p.1.exchange_th_id ≢ r.msg.th_id) bob.peers) where
  abbrev bob_waits : Prober
  bob_waits = (accept e fb enc_inv bob).1

  abbrev bob_ends : Result Text × Prober
  bob_ends = process_conn_res e (looks_of e order bob_waits) w.content bob_waits

  abbrev alice_ends : Result (Unit {0}) × Prober
  alice_ends = process_conn_req e fa r.content alice

  made : IsRequest e fb (pair_of e public_of laws x) bob_drew enc_inv bob r bob_asked
  made = request-done e fb (pair_of e public_of laws x) bob_drew enc_inv bob bob_asked r asked

  same_inv : made.inv ≡ inv
  same_inv = ap (λ (i : InvitationMsg × Text × Text). i.0) (ok-eq (sym made.parsed ∙ invited))

  -- Bob's state after `Accept`
  abbrev now : Prober
  now = record (prepared inv.label (pair_of e public_of laws x) made.did r.doc bob) {
    peers = add_peer inv.label (new_peer inv.sender r.msg.th_id []) bob.peers;
  }

  accept-now : accept e fb enc_inv bob ≡ (ok inv.label, now)
  accept-now =
      rw
        (
          accept-request e fb enc_inv ack bob bob_asked r asked sent,
          made.left,
          made.inviter,
          made.inviter_did,
          same_inv,
        )
        refl

  found :
      peer_by_exch_id order r.msg.th_id now.peers
      ≡ some (inv.label, new_peer inv.sender r.msg.th_id [])
  found =
      peer_by_exch_id-add order inv.label (new_peer inv.sender r.msg.th_id []) bob.peers ranges
        distinct fresh

  first_found :
      first_look e retry_count (looks_of e order now r.msg.th_id)
      ≡ ok (inv.label, new_peer inv.sender r.msg.th_id [])
  unfolding first_look
  first_found = rw (first_look, found) refl

  finished : bob_ends ≡ (
    ok inv.label,
    record now {
      peers =
          add_peer inv.label
            (new_peer inv.sender r.msg.th_id (own_services fa (public_of y) alice))
            now.peers;
    },
  )
  finished =
      ap (λ (p : Prober). process_conn_res e (looks_of e order p) w.content p)
        (ap (λ (z : Result Text × Prober). z.1) accept-now)
      ∙ process_conn_res-response e public_of laws bob alice bob_asked alice_ready fb fa x y v
          enc_inv r w bob_drew alice_drew asked answered inv invited holds_public holds_private
          r_readable r_reads (looks_of e order now) (new_peer inv.sender r.msg.th_id []) now
          w_readable w_reads first_found
          (public_key-keyed inv.label (pair_of e public_of laws x) bob.ks)
          (private_key-keyed inv.label (pair_of e public_of laws x) bob.ks)

  answer_parts :
      (w.peer_label ≡ bob.label)
      × (w.endpoint ≡ bob.exch_endpoint)
      × (w.peer ≡ new_peer r.msg.did r.msg.th_id (own_services fb (public_of x) bob))
  answer_parts =
      response-request e public_of laws bob alice bob_asked alice_ready fb fa x y v enc_inv r w
        bob_drew alice_drew asked answered inv invited holds_public holds_private r_readable r_reads

  alice_ends-eq : alice_ends ≡ (
    ok tt,
    record alice_ready {
      peers =
          add_peer bob.label
            (new_peer r.msg.did r.msg.th_id (own_services fb (public_of x) bob))
            alice_ready.peers;
    },
  )
  alice_ends-eq =
      rw
        (
          process_conn_req-response e fa r.content ack_2 alice alice_ready w answered sent_back,
          answer_parts.0,
          answer_parts.2,
        )
        refl

  alice_key : lookup bob.label alice_ready.ks.key_store ≡ some (pair_of e public_of laws y)
  alice_key =
      let ready =
        response-done e fa (pair_of e public_of laws y) alice_drew r.content alice alice_ready w
          answered in
      rw (ready.left, answer_parts.0)
        (lookup-insert_same bob.label (pair_of e public_of laws y) alice.ks.key_store)

  -- A DID exchange connects two probers. Let Bob accept an invitation that he reads with the key whose
  -- private half Alice holds, and let his request be made and sent, and Alice's response to it be made
  -- and sent. Then `Accept`, `processConnReq` and `processConnRes` all succeed; each of the two stores
  -- the other under its label with the thread id of the request, and with the services of the other,
  -- which have its endpoints and the public key of the pair that it keeps for this connection. It is
  -- assumed that both draw key pairs, that the libraries are faithful, that the DID documents, the
  -- packed messages, the request and the response read back from their JSON, and that no other peer of
  -- Bob has the thread id of the request; his store may be visited in any order.
  pub exchange-connects :
      ((accept e fb enc_inv bob).0 ≡ ok inv.label)
      × (alice_ends.0 ≡ ok tt)
      × (bob_ends.0 ≡ ok inv.label)
      × (lookup bob.label alice_ends.1.peers
          ≡ some (new_peer r.msg.did r.msg.th_id (own_services fb (public_of x) bob)))
      × (lookup bob.label alice_ends.1.ks.key_store ≡ some (pair_of e public_of laws y))
      × (lookup inv.label bob_ends.1.peers
          ≡ some (new_peer inv.sender r.msg.th_id (own_services fa (public_of y) alice)))
      × (lookup inv.label bob_ends.1.ks.key_store ≡ some (pair_of e public_of laws x))
  unfolding add_peer
  exchange-connects = (
    ap (λ z. z.0) accept-now,
    ap (λ z. z.0) alice_ends-eq,
    ap (λ z. z.0) finished,
    ap (λ z. lookup bob.label z.1.peers) alice_ends-eq ∙ lookup-insert_same _ _ _,
    ap (λ z. lookup bob.label z.1.ks.key_store) alice_ends-eq ∙ alice_key,
    ap (λ z. lookup inv.label z.1.peers) finished ∙ lookup-insert_same _ _ _,
    ap (λ z. lookup inv.label z.1.ks.key_store) finished ∙ lookup-insert_same _ _ _,
  )
