-- ===== src/Prober/Agent/Exchange/Connected.antt =====
-- prober/agent.go, a DID exchange between two probers: the request that `Accept` sends is handled by
-- `processConnReq` of the inviter, and its response by `processConnRes` of the invitee.
use didcomm_prober.Prelude.{
  ℕ, ◌≡◌, refl, sym, ap, subst, ◌∙◌, Text, ◌==◌, Option, ok, >>=-eq-ok, wrap, wrap-eq-ok, ok-eq,
}
use didcomm_prober.Domain.{Peer, retry_count}
use didcomm_prober.Domain.Messages.{AuthCryptMsg, InvitationMsg, DidDocument, ConnReq, ReadsBack}
use didcomm_prober.Crypto.Keys.{Keys, inv_public_key, inv_private_key, public_key, private_key}
use didcomm_prober.Crypto.Packer.{pack}
use didcomm_prober.DidComm.Did.{create_did_doc}
use didcomm_prober.DidComm.Invitation.{parse_inv}
use didcomm_prober.DidComm.Connection.{
  create_conn_req, create_conn_res, parse-create_conn_req, parse-create_conn_res,
}
use didcomm_prober.Prober.Peers.{add_peer}
use didcomm_prober.Prober.Agent.{Prober, Env, Fresh, codecs, info_by_servc, get_peer_info}
use didcomm_prober.Prober.Agent.Exchange.{
  new_peer, Request, Response, request, response, own_services, process_conn_res, note_peer,
  first_look,
}
use didcomm_prober.Prober.Agent.Exchange.Documents.{
  IsFaithful, doc_services-create, get_peer_info-pack,
}
use didcomm_prober.Prober.Agent.Exchange.Made.{IsRequest, request-done, IsResponse, response-done}

-- A document that one prober has packed reads back at each step.
pub record IsReadable (e : Env) (doc : DidDocument) (enc : AuthCryptMsg) : Type 0 where
  pub doc_reads : ReadsBack e.docs doc
  pub enc_reads : ReadsBack e.libs.msgs enc

module _ (e : Env) (public_of : Text → Text) (laws : IsFaithful e.libs public_of) where
  open e use {libs}

  abbrev pub pair_of : Text → Keys
  pair_of x = record { public = public_of x; private = x }

  -- What `getPeerInfo` reads with the key pair of `b` out of a document of the holder of `a`.
  read_services :
      (f : Fresh) (a b byts content : Text) (p : Prober) (doc : DidDocument) (enc : AuthCryptMsg)
      → IsReadable e doc enc
      → create_did_doc libs.base (own_services f (public_of a) p) ≡ ok doc
      → e.docs.marshal doc ≡ ok byts
      → pack libs f.random byts (public_of b) (public_of a) a ≡ ok enc
      → libs.msgs.marshal enc ≡ ok content
      → get_peer_info e content (public_of b) b ≡ ok (own_services f (public_of a) p)
  unfolding own_services
  read_services f a b byts content p doc enc readable listed marshalled packed written =
      get_peer_info-pack e public_of laws f.random a b byts content doc enc _ _ packed
        (readable.enc_reads content written) (readable.doc_reads byts marshalled)
        (doc_services-create e public_of laws _ doc listed)

  module _ (bob alice bob_asked alice_ready : Prober) (fb fa : Fresh) (x y v enc_inv : Text)
      (r : Request) (w : Response) (bob_drew : fb.pair ≡ ok (pair_of x))
      (alice_drew : fa.pair ≡ ok (pair_of y)) (asked : request e fb enc_inv bob ≡ (ok r, bob_asked))
      (answered : response e fa r.content alice ≡ (ok w, alice_ready)) (inv : InvitationMsg)
      (invited : parse_inv e.url libs.base e.invs enc_inv ≡ ok (inv, r.endpoint, public_of v))
      (holds_public : inv_public_key alice.ks ≡ ok (public_of v))
      (holds_private : inv_private_key alice.ks ≡ ok v) (r_readable : IsReadable e r.doc r.enc_doc)
      (r_reads : ReadsBack e.reqs r.msg) where
    pub made_r : IsRequest e fb (pair_of x) bob_drew enc_inv bob r bob_asked
    made_r = request-done e fb (pair_of x) bob_drew enc_inv bob bob_asked r asked

    made_w : IsResponse e fa (pair_of y) alice_drew r.content alice w alice_ready
    made_w = response-done e fa (pair_of y) alice_drew r.content alice alice_ready w answered

    open made_w use {svcs, key}

    -- the thread, the DID and the document of the request, as they were made
    req_parts :
        (doc : Text) × (libs.msgs.marshal r.enc_doc ≡ ok doc)
        × (r.msg.did ≡ made_r.did)
        × (r.msg.th_id ≡ fb.id_3)
    unfolding create_conn_req
    req_parts =
        let (doc, written, made) =
          >>=-eq-ok (wrap "marshalling encrypted did doc failed" (libs.msgs.marshal r.enc_doc)) _
            made_r.made in
        (
          doc,
          wrap-eq-ok _ _ written,
          sym (ap (λ (m : ConnReq). m.did) (ok-eq made)),
          sym (ap (λ (m : ConnReq). m.th_id) (ok-eq made)),
        )

    parsed_request :
        ◌≡◌ {A = Text × Text × Text × Text}
          (w.peer_label, made_w.exch_id, made_w.peer_did, made_w.enc_doc)
          (bob.label, fb.id_3, made_r.did, req_parts.0)
    parsed_request = ok-eq (
        sym made_w.parsed
        ∙ parse-create_conn_req (codecs e) laws.decodes fb.id_3 fb.id_4 bob.label made_r.inv.id
            made_r.did r.content req_parts.0 r.enc_doc r.msg req_parts.1 made_r.made
            (r_reads r.content made_r.written))

    inv_key_eq : made_r.key ≡ public_of v
    inv_key_eq = ap (λ (i : InvitationMsg × Text × Text). i.2) (ok-eq (sym made_r.parsed ∙ invited))

    read_bob : svcs ≡ own_services fb (public_of x) bob
    read_bob =
        let same_doc = ap (λ (i : Text × Text × Text × Text). i.3) parsed_request in
        let same_key = ok-eq (sym made_w.has_key ∙ holds_public) in
        let same_prv = ok-eq (sym made_w.has_prv ∙ holds_private) in
        let packed : pack libs fb.random made_r.byts (public_of v) (public_of x) x ≡ ok r.enc_doc =
          subst (λ k. pack libs fb.random made_r.byts k (public_of x) x ≡ ok r.enc_doc) inv_key_eq
            made_r.packed in
        ok-eq (
          sym made_w.read
          ∙ rw (same_doc, same_key, same_prv)
              (read_services fb x v made_r.byts req_parts.0 bob r.doc r.enc_doc r_readable
                made_r.listed made_r.marshalled packed req_parts.1))

    thread : made_w.exch_id ≡ r.msg.th_id
    thread = ap (λ (i : Text × Text × Text × Text). i.1) parsed_request ∙ sym req_parts.3

    answer_to : ◌≡◌ {A = Text × Text} (w.endpoint, key) (bob.exch_endpoint, public_of x)
    unfolding own_services info_by_servc ◌==◌
    answer_to = ok-eq (sym made_w.answered ∙ rw read_bob refl)

    -- what the inviter stores, and whom it answers
    pub response-request :
        (w.peer_label ≡ bob.label)
        × (w.endpoint ≡ bob.exch_endpoint)
        × (w.peer ≡ new_peer r.msg.did r.msg.th_id (own_services fb (public_of x) bob))
    response-request =
        let did_eq : made_w.peer_did ≡ r.msg.did =
          ap (λ (i : Text × Text × Text × Text). i.2) parsed_request ∙ sym req_parts.2 in
        (
          ap (λ (i : Text × Text × Text × Text). i.0) parsed_request,
          ap (λ (i : Text × Text). i.0) answer_to,
          made_w.peer ∙ rw (read_bob, thread, did_eq) refl,
        )

    -- what the invitee stores once the response is there, whatever happened in between
    pub process_conn_res-response :
        (looks : Text → ℕ → Option (Text × Peer)) (pr : Peer) (now : Prober)
        → IsReadable e w.doc w.enc_doc
        → ReadsBack e.ress w.msg
        → first_look e retry_count (looks r.msg.th_id) ≡ ok (inv.label, pr)
        → public_key inv.label now.ks ≡ ok (public_of x)
        → private_key inv.label now.ks ≡ ok x
        → process_conn_res e looks w.content now ≡ (
          ok inv.label,
          record now {
            peers =
                add_peer inv.label
                  (new_peer pr.did r.msg.th_id (own_services fa (public_of y) alice))
                  now.peers;
          },
        )
    unfolding process_conn_res note_peer create_conn_res
    process_conn_res-response looks pr now readable reads found has_key has_prv =
        let (doc, written, made) =
          >>=-eq-ok (wrap "marshalling encrypted did doc failed" (libs.msgs.marshal w.enc_doc)) _
            made_w.made in
        let marshalled = wrap-eq-ok _ _ written in
        let parsed =
          parse-create_conn_res (codecs e) laws.decodes fa.id_3 fa.id_4 made_w.exch_id made_w.did
            w.content doc w.enc_doc w.msg marshalled made_w.made (reads w.content made_w.written) in
        let packed : pack libs fa.random made_w.byts (public_of x) (public_of y) y ≡ ok w.enc_doc =
          subst (λ k. pack libs fa.random made_w.byts k (public_of y) y ≡ ok w.enc_doc)
            (ap (λ (i : Text × Text). i.1) answer_to) made_w.packed in
        let svcs_read =
          read_services fa y x made_w.byts doc alice w.doc w.enc_doc readable made_w.listed
            made_w.marshalled packed marshalled in
        let at_thread =
          subst (λ i. first_look e retry_count (looks i) ≡ ok (inv.label, pr)) (sym thread) found in
        rw (parsed, at_thread, has_key, has_prv, svcs_read, thread) refl
