-- ===== src/Prober/Agent.antt =====
-- prober/agent.go: invitations, the DID exchange, and messages to peers. A handler is one step on the
-- prober's state; random values, the order of a range and the transport's answers are arguments.
pub mod Services
pub mod Exchange
use didcomm_prober.Prelude.{
  ℕ, zero, suc, Text, str, ◌==◌, Assoc, lookup, insert, Bool, true, false, Option, none, some, List,
  [], ◌∷◌, ◌++◌, Result, ok, err, panic, fail, wrap, ◌>>=◌, if◌then◌else◌,
}
use didcomm_prober.Domain.{
  Service, Peer, MsgType, data_msg, conn_req, conn_res, servc_did_exchange, servc_message,
  servc_group_join,
}
use didcomm_prober.Domain.Messages.{
  AuthCryptMsg, Payload, Recipient, MsgService, DidDocument, InvitationMsg, ConnReq, ConnRes, Json,
  BaseCodec,
}
use didcomm_prober.Crypto.Keys.{
  Keys, KeyManager, generate_keys, public_key, private_key, peer, generate_inv_keys, inv_public_key,
  inv_private_key,
}
use didcomm_prober.Crypto.Packer.{Random, Libraries, pack, unpack}
use didcomm_prober.DidComm.Did.{create_did_doc, create_peer_did}
use didcomm_prober.DidComm.Invitation.{UrlCodec, create_inv, parse_inv}
use didcomm_prober.DidComm.Connection.{
  Codecs, create_conn_req, parse_conn_req, create_conn_res, parse_conn_res,
}
use didcomm_prober.Prober.Peers.{
  Peers, DidStore, add_peer, peer_by_label, peer_by_exch_id, add_did, get_did,
}

pub record Prober : Type 0 where
  pub label : Text
  pub inv_endpoint : Text
  pub exch_endpoint : Text
  pub grp_join_endpoint : Text
  pub ks : KeyManager
  pub peers : Peers
  pub did_store : DidStore

-- What the agent calls and does not implement.
pub record Env : Type 0 where
  pub libs : Libraries
  -- the host name of the configuration
  pub hostname : Text
  pub url : UrlCodec
  pub docs : Json DidDocument
  pub invs : Json InvitationMsg
  pub reqs : Json ConnReq
  pub ress : Json ConnRes
  pub sha256 : Text → Text
  -- client.Send of a message to an endpoint
  pub send : MsgType → Text → Text → Result Text

abbrev pub codecs : Env → Codecs
codecs e = record { base = e.libs.base; msgs = e.libs.msgs; reqs = e.reqs; ress = e.ress }

-- the ids, the key pair and the packer's values that one handler draws
pub record Fresh : Type 0 where
  pub id : Text
  pub id_2 : Text
  pub id_3 : Text
  pub id_4 : Text
  pub pair : Result Keys
  pub random : Random

unfoldable pub info_by_servc : Text → List Service → Result (Text × Text)
info_by_servc filter [] = fail "services does not contain the filter"
info_by_servc filter (s ∷ ss) =
    if s.typ == filter then ok (s.endpoint, s.pub_key) else info_by_servc filter ss

-- The first recipient key that decodes; a key that does not is logged and skipped.
unfoldable pub first_decoded : BaseCodec → MsgService → List Text → List Service
first_decoded base s [] = []
first_decoded base s (rk ∷ rks) = elim (base.decode64 rk) [
  | ok key ↦ (record { id = s.id; typ = s.typ; endpoint = s.service_endpoint; pub_key = key }) ∷ []
  | _ ↦ first_decoded base s rks
]

unfoldable pub doc_services : BaseCodec → List MsgService → List Service
doc_services base [] = []
doc_services base (s ∷ ss) = first_decoded base s s.recipient_keys ++ doc_services base ss

unfoldable pub some_services : List MsgService → Result (Unit {0})
some_services [] = fail "did doc does not contain a service"
some_services (s ∷ ss) = ok tt

first_kid : List Recipient → Result Text
first_kid [] = panic
first_kid (r ∷ rs) = ok r.header.kid

module _ (e : Env) where
  unfoldable pub get_peer_info : Text → Text → Text → Result (List Service)
  unfolding doc_services first_decoded some_services
  get_peer_info enc_doc_bytes rec_pub_key rec_prv_key = do
    peer_doc_bytes ←
        wrap "decrypting did doc failed" (unpack e.libs enc_doc_bytes rec_pub_key rec_prv_key)
    peer_did_doc ← wrap "unmarshalling decrypted did doc failed" (e.docs.unmarshal peer_doc_bytes)
    _ ← some_services peer_did_doc.services
    ok (doc_services e.libs.base peer_did_doc.services)

  -- `Recipients[0]` of a message without recipients is a panic.
  unfoldable pub peer_by_msg :
      (List (Text × Keys) → List (Text × Keys)) → Text → Prober → Result Text
  unfolding first_kid
  peer_by_msg order content p = do
    msg ← wrap "unmarshalling authcrypt message failed" (e.libs.msgs.unmarshal content)
    decoded_val ←
        wrap "decoding protected value with base64 failed" (e.libs.base.decode64 msg.protected)
    payload ← wrap "unmarshalling protected payload failed" (e.libs.payloads.unmarshal decoded_val)
    kid ← first_kid payload.recipients
    peer order (e.libs.base.decode58 kid) p.ks

  -- sender and text
  unfoldable pub read_message :
      (List (Text × Keys) → List (Text × Keys)) → Text → Prober → Result (Text × Text)
  read_message order content p = do
    peer_name ← wrap "getting peer info failed" (peer_by_msg order content p)
    own_pub_key ← wrap "getting public key for connection failed" (public_key peer_name p.ks)
    own_prv_key ← wrap "getting private key for connection failed" (private_key peer_name p.ks)
    text_bytes ← wrap "unpacking message failed" (unpack e.libs content own_pub_key own_prv_key)
    ok (peer_name, text_bytes)

  -- The message that is handed to the transport, and the endpoint.
  unfoldable pub outgoing : Random → Text → Text → Prober → Result (Text × Text)
  unfolding info_by_servc
  outgoing r to text p = do
    pr ← wrap "no didcomm connection found for the recipient" (peer_by_label to p.peers)
    own_pub_key ← wrap "getting public key for connection failed" (public_key to p.ks)
    own_prv_key ← wrap "getting private key for connection failed" (private_key to p.ks)
    (endpoint, key) ←
        wrap "getting message endpoint failed" (info_by_servc servc_message pr.services)
    msg ← wrap "packing message failed" (pack e.libs r text key own_pub_key own_prv_key)
    content ← wrap "marshalling didcomm message failed" (e.libs.msgs.marshal msg)
    ok (content, endpoint)

  unfoldable pub send_message : Random → MsgType → Text → Text → Prober → Result (Unit {0})
  unfolding outgoing
  send_message r mt to text p = do
    (content, endpoint) ← outgoing r to text p
    _ ← wrap "sending didcomm message failed" (e.send mt content endpoint)
    ok tt
