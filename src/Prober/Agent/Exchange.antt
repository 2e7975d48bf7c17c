-- ===== src/Prober/Agent/Exchange.antt =====
-- prober/agent.go: the DID exchange. An invitation is accepted by a connection request, which is
-- answered by a connection response.
pub mod Documents
pub mod Prepared
pub mod Made
pub mod Connected
pub mod Invited
pub mod Established
pub mod Talk
use didcomm_prober.Prelude.{
  ℕ, zero, suc, Text, false, Option, none, some, List, [], ◌∷◌, Result, ok, err, panic, wrap,
  from_option,
}
use didcomm_prober.Prelude.Exec.{Exec, pure, lift, gets, wrapping, ◌>>=◌, ◌>>◌}
use didcomm_prober.Domain.{
  Service, Peer, conn_req, conn_res, servc_did_exchange, servc_message, servc_group_join,
  retry_count,
}
use didcomm_prober.Domain.Messages.{DidDocument, AuthCryptMsg, ConnReq, ConnRes}
use didcomm_prober.Crypto.Keys.{
  Keys, KeyManager, generate_keys, public_key, private_key, generate_inv_keys, inv_public_key,
  inv_private_key,
}
use didcomm_prober.Crypto.Packer.{pack}
use didcomm_prober.DidComm.Did.{create_did_doc, create_peer_did}
use didcomm_prober.DidComm.Invitation.{create_inv, parse_inv}
use didcomm_prober.DidComm.Connection.{
  create_conn_req, parse_conn_req, create_conn_res, parse_conn_res,
}
use didcomm_prober.Prober.Peers.{add_peer, add_did, get_did}
use didcomm_prober.Prober.Agent.{
  Prober, Env, Fresh, codecs, info_by_servc, get_peer_info, read_message,
}

on_keys : (KeyManager → Result (Unit {0}) × KeyManager) → Exec Prober (Unit {0})
on_keys f p = ((f p.ks).0, record p { ks = (f p.ks).1 })

note_did : Text → Text → DidDocument → Exec Prober (Unit {0})
note_did label did doc p = (ok tt, record p { did_store = add_did label did doc p.did_store })

unfoldable pub note_peer : Text → Peer → Exec Prober (Unit {0})
note_peer label pr p = (ok tt, record p { peers = add_peer label pr p.peers })

-- a value whose error is dropped
or_nil : Result Text → Text
or_nil (ok t) = t
or_nil (err e) = []
or_nil panic = []

-- models.Peer with the fields that are given; `Active` is never set.
abbrev pub new_peer : Text → Text → List Service → Peer
new_peer did th_id svcs = record {
  active = false;
  did = did;
  exchange_th_id = th_id;
  services = svcs;
}

-- What `Accept` has made when it sends the request, and what it stores then.
pub record Request : Type 0 where
  pub inviter : Text
  pub inviter_did : Text
  pub doc : DidDocument
  pub enc_doc : AuthCryptMsg
  pub msg : ConnReq
  pub content : Text
  pub endpoint : Text

-- What `processConnReq` has made when it sends the response, and the peer that it stores then.
pub record Response : Type 0 where
  pub peer_label : Text
  pub peer : Peer
  pub doc : DidDocument
  pub enc_doc : AuthCryptMsg
  pub msg : ConnRes
  pub content : Text
  pub endpoint : Text

-- a new key pair's own services
unfoldable pub own_services : Fresh → Text → Prober → List Service
own_services f key p =
    (record { id = f.id; typ = servc_message; endpoint = p.exch_endpoint; pub_key = key })
    ∷ (record {
      id = f.id_2;
      typ = servc_group_join;
      endpoint = p.grp_join_endpoint;
      pub_key = key;
    })
    ∷ []

module _ (e : Env) where
  unfoldable pub invite : Fresh → Exec Prober Text
  unfolding on_keys
  invite f = do
    wrapping "generating invitation keys failed" (on_keys (generate_inv_keys f.pair))
    inv_key ← gets (λ p. inv_public_key p.ks)
    inv_did_doc ← gets (λ p. create_did_doc e.libs.base (
        (record {
          id = f.id;
          typ = servc_did_exchange;
          endpoint = p.inv_endpoint;
          pub_key = inv_key;
        })
        ∷ []))
    gets (λ p.
        wrap "creating invitation failed"
          (create_inv e.url e.invs e.hostname f.id_2 p.label [] inv_did_doc))

  -- the public and the private key of the new pair
  unfoldable pub set_conn_prereqs : Fresh → Text → Exec Prober (Text × Text)
  unfolding on_keys own_services note_did or_nil
  set_conn_prereqs f label = do
    wrapping "generating keys failed" (on_keys (generate_keys f.pair label))
    key ← gets (λ p. ok (or_nil (public_key label p.ks)))
    prv ← gets (λ p. ok (or_nil (private_key label p.ks)))
    did_doc ← gets (λ p. create_did_doc e.libs.base (own_services f key p))
    did ←
        lift (wrap "creating peer did failed" (create_peer_did e.libs.base e.docs e.sha256 did_doc))
    note_did label did did_doc
    pure (key, prv)

  -- `Accept` up to the marshalled request. The state keeps the new keys and the new DID.
  unfoldable pub request : Fresh → Text → Exec Prober Request
  unfolding set_conn_prereqs
  request f encoded_inv = do
    (inv, inv_endpoint, inv_key) ←
        lift (wrap "parsing invitation failed" (parse_inv e.url e.libs.base e.invs encoded_inv))
    (key, prv) ← wrapping "setting up prerequisites failed" (set_conn_prereqs f inv.label)
    (did, doc) ← gets (λ p. wrap "fetching dids failed" (get_did inv.label p.did_store))
    doc_bytes ← lift (wrap "marshalling did doc failed" (e.docs.marshal doc))
    enc_doc ←
        lift (wrap "encrypting did doc failed" (pack e.libs f.random doc_bytes inv_key key prv))
    conn_req_msg ← gets (λ p.
        wrap "creating connection request failed"
          (create_conn_req (codecs e) f.id_3 f.id_4 p.label inv.id did enc_doc))
    bytes ← lift (wrap "marshalling connection request failed" (e.reqs.marshal conn_req_msg))
    pure (record {
      inviter = inv.label;
      inviter_did = inv.sender;
      doc = doc;
      enc_doc = enc_doc;
      msg = conn_req_msg;
      content = bytes;
      endpoint = inv_endpoint;
    })

  -- `Accept`; the inviter's label
  unfoldable pub accept : Fresh → Text → Exec Prober Text
  unfolding request note_peer
  accept f encoded_inv = do
    r ← request f encoded_inv
    lift (wrap "sending connection request failed" (e.send conn_req r.content r.endpoint))
    note_peer r.inviter (new_peer r.inviter_did r.msg.th_id [])
    pure r.inviter

  -- `processConnReq` up to the marshalled response.
  unfoldable pub response : Fresh → Text → Exec Prober Response
  unfolding set_conn_prereqs
  response f content = do
    (peer_label, exch_id, peer_did, enc_doc) ←
        lift (wrap "parsing connection request failed" (parse_conn_req (codecs e) content))
    inv_key ← gets (λ p. inv_public_key p.ks)
    inv_prv ← gets (λ p. inv_private_key p.ks)
    svcs ← lift (wrap "getting peer data failed" (get_peer_info e enc_doc inv_key inv_prv))
    (endpoint, peer_key) ←
        lift (wrap "getting message endpoint failed" (info_by_servc servc_message svcs))
    (key, prv) ← wrapping "setting up prerequisites failed" (set_conn_prereqs f peer_label)
    (did, doc) ← gets (λ p. wrap "fetching did-doc failed" (get_did peer_label p.did_store))
    doc_bytes ← lift (wrap "marshalling did doc failed" (e.docs.marshal doc))
    enc_did_doc ←
        lift (wrap "encrypting did doc failed" (pack e.libs f.random doc_bytes peer_key key prv))
    conn_res_msg ← lift (
        wrap "creating connection response failed"
          (create_conn_res (codecs e) f.id_3 f.id_4 exch_id did enc_did_doc))
    bytes ← lift (wrap "marshalling connection response failed" (e.ress.marshal conn_res_msg))
    pure (record {
      peer_label = peer_label;
      peer = new_peer peer_did exch_id svcs;
      doc = doc;
      enc_doc = enc_did_doc;
      msg = conn_res_msg;
      content = bytes;
      endpoint = endpoint;
    })

  unfoldable pub process_conn_req : Fresh → Text → Exec Prober (Unit {0})
  unfolding response note_peer
  process_conn_req f content = do
    w ← response f content
    lift (wrap "sending connection response failed" (e.send conn_res w.content w.endpoint))
    note_peer w.peer_label w.peer

  -- What the `retry` loop finds: `looks n` is the answer of the store at the look after which n more
  -- would be taken.
  unfoldable pub first_look : ℕ → (ℕ → Option (Text × Peer)) → Result (Text × Peer)
  first_look zero looks = from_option "peer does not exist for exchange id" (looks zero)
  first_look (suc n) looks = elim (looks (suc n)) [
    | some found ↦ ok found
    | none ↦ first_look n looks
  ]

  -- The peer that is stored, and the name that is looked up in `syncCons` for the waiting channel.
  -- Other goroutines write the store between the looks for the thread, which are an argument.
  unfoldable pub process_conn_res : (Text → ℕ → Option (Text × Peer)) → Text → Exec Prober Text
  unfolding first_look note_peer
  process_conn_res looks content = do
    (pth_id, enc_doc) ←
        lift (wrap "parsing connection request failed" (parse_conn_res (codecs e) content))
    (name, pr) ← lift (first_look retry_count (looks pth_id))
    key ← gets (λ p. wrap "getting public key for connection failed" (public_key name p.ks))
    prv ← gets (λ p. wrap "getting private key for connection failed" (private_key name p.ks))
    svcs ← lift (wrap "getting peer data failed" (get_peer_info e enc_doc key prv))
    note_peer name (new_peer pr.did pth_id svcs)
    pure name

-- What a goroutine of the server hands over, with what the handler draws or what it finds.
pub data Incoming : Type 0 where
  conn_req_in : Fresh → Text → Incoming
  conn_res_in : (Text → ℕ → Option (Text × Peer)) → Text → Incoming
  data_in : (List (Text × Keys) → List (Text × Keys)) → Text → Incoming

-- One turn of `listen`, which logs the error of a handler.
module _ (e : Env) where
  unfoldable pub listen_turn : Incoming → Exec Prober (Unit {0})
  listen_turn (conn_req_in f content) = process_conn_req e f content
  listen_turn (conn_res_in looks content) = do process_conn_res e looks content; pure tt
  listen_turn (data_in order content) = do gets (read_message e order content); pure tt
