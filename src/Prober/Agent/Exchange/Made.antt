-- ===== src/Prober/Agent/Exchange/Made.antt =====
-- prober/agent.go: what `Accept` and `processConnReq` have made when they send.
use didcomm_prober.Prelude.{◌≡◌, refl, sym, ap, subst, ◌∙◌, Text, List, ok, ok-eq}
use didcomm_prober.Prelude.Exec.{continue-done, wrapped-done, ends-eq}
use didcomm_prober.Domain.{Service, servc_message}
use didcomm_prober.Domain.Messages.{InvitationMsg, DidDocument}
use didcomm_prober.Crypto.Keys.{inv_public_key, inv_private_key, Keys}
use didcomm_prober.DidComm.Did.{create_did_doc}
use didcomm_prober.Crypto.Packer.{pack}
use didcomm_prober.DidComm.Invitation.{parse_inv}
use didcomm_prober.DidComm.Connection.{create_conn_req, create_conn_res, parse_conn_req}
use didcomm_prober.Prober.Agent.{Prober, Env, Fresh, codecs, info_by_servc, get_peer_info}
use didcomm_prober.Prober.Peers.{get_did}
use didcomm_prober.Prober.Agent.Exchange.{
  new_peer, Request, Response, request, response, set_conn_prereqs, own_services,
}
use didcomm_prober.Prober.Agent.Exchange.Prepared.{prepared, set_conn_prereqs-done}

module _ (e : Env) (f : Fresh) (ks : Keys) (drawn : f.pair ≡ ok ks) where
  open e use {libs}

  -- What stands behind a request that `Accept` sends.
  pub record IsRequest (enc_inv : Text) (p : Prober) (r : Request) (q : Prober) : Type 0 where
    pub inv : InvitationMsg
    pub key : Text
    pub did : Text
    pub byts : Text
    pub parsed : parse_inv e.url libs.base e.invs enc_inv ≡ ok (inv, r.endpoint, key)
    pub listed : create_did_doc libs.base (own_services f ks.public p) ≡ ok r.doc
    pub marshalled : e.docs.marshal r.doc ≡ ok byts
    pub packed : pack libs f.random byts key ks.public ks.private ≡ ok r.enc_doc
    pub made : create_conn_req (codecs e) f.id_3 f.id_4 p.label inv.id did r.enc_doc ≡ ok r.msg
    pub written : e.reqs.marshal r.msg ≡ ok r.content
    pub left : q ≡ prepared inv.label ks did r.doc p
    pub inviter : r.inviter ≡ inv.label
    pub inviter_did : r.inviter_did ≡ inv.sender

  pub request-done :
      (enc_inv : Text) (p q : Prober) (r : Request)
      → request e f enc_inv p ≡ (ok r, q)
      → IsRequest enc_inv p r q
  unfolding request
  request-done enc_inv p q r h =
      wrapped-done _ (parse_inv e.url libs.base e.invs enc_inv) _ p q h
        (λ (inv, endpoint, key) parsed h1.
          wrapped-done _ (set_conn_prereqs e f inv.label p).0 _ _ q h1 (λ kp keys h2.
            set_conn_prereqs-done e f ks drawn inv.label p kp keys
              (λ did doc listed same left stored.
                wrapped-done _ (get_did inv.label _) _ _ q h2 (λ (did_2, doc_2) got h3.
                  wrapped-done _ (e.docs.marshal doc_2) _ _ q h3 (λ byts marshalled h4.
                    wrapped-done _ (pack libs f.random byts key kp.0 kp.1) _ _ q h4
                      (λ enc_doc packed h5. wrapped-done _ _ _ _ q h5 (λ msg made h6.
                        wrapped-done _ (e.reqs.marshal msg) _ _ q h6 (λ content written ends.
                          let dids : (did, doc) ≡ (did_2, doc_2) = ok-eq (sym stored ∙ got) in
                          let (made_r, end) = ends-eq ends in
                          subst (λ (x : Request). IsRequest enc_inv p x q) made_r
                            (record {
                              inv = inv;
                              key = key;
                              did = did_2;
                              byts = byts;
                              parsed = parsed;
                              listed = listed ∙ ap (λ (x : Text × DidDocument). ok x.1) dids;
                              marshalled = marshalled;
                              packed =
                                  subst
                                    (λ (k : Text × Text).
                                      pack libs f.random byts key k.0 k.1 ≡ ok enc_doc)
                                    same packed;
                              made =
                                  subst
                                    (λ (x : Prober).
                                      create_conn_req (codecs e) f.id_3 f.id_4 x.label inv.id did_2
                                        enc_doc
                                      ≡ ok msg)
                                    left made;
                              written = written;
                              left =
                                  sym end
                                  ∙ left
                                  ∙ ap (λ (x : Text × DidDocument). prepared inv.label ks x.0 x.1 p)
                                      dids;
                              inviter = refl;
                              inviter_did = refl;
                            })))))))))

  -- What stands behind a response that `processConnReq` sends.
  pub record IsResponse (content : Text) (p : Prober) (w : Response) (q : Prober) : Type 0 where
    pub exch_id : Text
    pub peer_did : Text
    pub enc_doc : Text
    pub inv_key : Text
    pub inv_prv : Text
    pub svcs : List Service
    pub key : Text
    pub did : Text
    pub byts : Text
    pub parsed : parse_conn_req (codecs e) content ≡ ok (w.peer_label, exch_id, peer_did, enc_doc)
    pub has_key : inv_public_key p.ks ≡ ok inv_key
    pub has_prv : inv_private_key p.ks ≡ ok inv_prv
    pub read : get_peer_info e enc_doc inv_key inv_prv ≡ ok svcs
    pub answered : info_by_servc servc_message svcs ≡ ok (w.endpoint, key)
    pub listed : create_did_doc libs.base (own_services f ks.public p) ≡ ok w.doc
    pub marshalled : e.docs.marshal w.doc ≡ ok byts
    pub packed : pack libs f.random byts key ks.public ks.private ≡ ok w.enc_doc
    pub made : create_conn_res (codecs e) f.id_3 f.id_4 exch_id did w.enc_doc ≡ ok w.msg
    pub written : e.ress.marshal w.msg ≡ ok w.content
    pub left : q ≡ prepared w.peer_label ks did w.doc p
    pub peer : w.peer ≡ new_peer peer_did exch_id svcs

  pub response-done :
      (content : Text) (p q : Prober) (w : Response)
      → response e f content p ≡ (ok w, q)
      → IsResponse content p w q
  unfolding response
  response-done content p q w h =
      wrapped-done _ (parse_conn_req (codecs e) content) _ p q h
        (λ (label, exch_id, peer_did, peer_doc) parsed h1.
          continue-done (inv_public_key p.ks) _ p q h1 (λ inv_key has_key h2.
            continue-done (inv_private_key p.ks) _ p q h2 (λ inv_prv has_prv h3.
              wrapped-done _ (get_peer_info e peer_doc inv_key inv_prv) _ p q h3 (λ svcs read h4.
                wrapped-done _ (info_by_servc servc_message svcs) _ p q h4
                  (λ (endpoint, key) answered h5.
                    wrapped-done _ (set_conn_prereqs e f label p).0 _ _ q h5 (λ kp keys h6.
                      set_conn_prereqs-done e f ks drawn label p kp keys
                        (λ did doc listed same left stored.
                          wrapped-done _ (get_did label _) _ _ q h6 (λ (did_2, doc_2) got h7.
                            wrapped-done _ (e.docs.marshal doc_2) _ _ q h7 (λ byts marshalled h8.
                              wrapped-done _ (pack libs f.random byts key kp.0 kp.1) _ _ q h8
                                (λ enc_doc packed h9. wrapped-done _ _ _ _ q h9 (λ msg made h10.
                                  wrapped-done _ (e.ress.marshal msg) _ _ q h10
                                    (λ written_bytes written ends.
                                      let dids : (did, doc) ≡ (did_2, doc_2) =
                                        ok-eq (sym stored ∙ got) in
                                      let (made_w, end) = ends-eq ends in
                                      subst (λ (x : Response). IsResponse content p x q) made_w
                                        (record {
                                          exch_id = exch_id;
                                          peer_did = peer_did;
                                          enc_doc = peer_doc;
                                          inv_key = inv_key;
                                          inv_prv = inv_prv;
                                          svcs = svcs;
                                          key = key;
                                          did = did_2;
                                          byts = byts;
                                          parsed = parsed;
                                          has_key = has_key;
                                          has_prv = has_prv;
                                          read = read;
                                          answered = answered;
                                          listed =
                                              listed ∙ ap (λ (x : Text × DidDocument). ok x.1) dids;
                                          marshalled = marshalled;
                                          packed =
                                              subst
                                                (λ (k : Text × Text).
                                                  pack libs f.random byts key k.0 k.1 ≡ ok enc_doc)
                                                same packed;
                                          made = made;
                                          written = written;
                                          left =
                                              sym end
                                              ∙ left
                                              ∙ ap
                                                  (λ (x : Text × DidDocument).
                                                    prepared label ks x.0 x.1 p)
                                                  dids;
                                          peer = refl;
                                        })))))))))))))
