-- ===== src/Examples/Connecting.antt =====
-- A run of the DID exchange between two probers, and of a message between them.
use didcomm_prober.Prelude.{
  ◌≡◌, refl, Text, str, [], ◌∷◌, ◌++◌, none, some, Result, ok, err, panic, lookup, insert, ◌==◌,
  eq_iff, sym, arith, ok-eq,
}
use didcomm_prober.Prelude.Buffers.{buffered, trim_nul}
use didcomm_prober.Domain.Messages.{InvitationMsg}
use didcomm_prober.Crypto.Keys.{
  Keys, inv_public_key, inv_private_key, public_key, private_key, generate_keys, generate_inv_keys,
}
use didcomm_prober.Crypto.Cipher.{
  box, seal_box, encrypt_detached, copied, box_open, seal_box_open, decrypt_detached,
}
use didcomm_prober.Crypto.Packer.{pack, unpack, new_payload}
use didcomm_prober.DidComm.Did.{create_did_doc, create_peer_did, msg_services}
use didcomm_prober.DidComm.Connection.{create_conn_req, parse_conn_req, create_conn_res, attachment}
use didcomm_prober.Prober.Peers.{get_did, add_did, peer_by_label}
use didcomm_prober.DidComm.Invitation.{parse_inv, create_inv}
use didcomm_prober.Prober.Agent.{
  Prober, read_message, outgoing, get_peer_info, info_by_servc, first_decoded, doc_services,
  some_services,
}
use didcomm_prober.Prober.Agent.Exchange.{
  set_conn_prereqs, Request, Response, request, response, accept, process_conn_req,
  process_conn_res, invite, new_peer, own_services,
}
use didcomm_prober.Prober.Agent.Exchange.Established.{looks_of, exchange-connects}
use didcomm_prober.Prober.Agent.Exchange.Invited.{invitation, parse-invite}
use didcomm_prober.Prober.Agent.Exchange.Talk.{read-outgoing}
use didcomm_prober.Examples.{alice, bob, in_order, in_order-IsRange}
use didcomm_prober.Examples.Codecs.{stepped, env, laws, starting, drawing}
use didcomm_prober.Examples.Packing.{random, msgs_read}

abbrev key_of : Text → Keys
key_of k = record { public = k; private = k }

abbrev with_default : {A : Type 0} → A → Result A → A
with_default a (ok b) = b
with_default a (err e) = a
with_default a panic = a

-- Alice invites.
abbrev uninvited : Prober
uninvited = starting alice (str "a")

abbrev inviter : Prober
inviter = (invite env (drawing (str "i")) uninvited).1

abbrev link : Text
link = with_default [] (invite env (drawing (str "i")) uninvited).0

abbrev inv : InvitationMsg
inv = invitation env (λ t. t) laws (drawing (str "i")) (str "i") uninvited

abbrev enc_inv : Text
enc_inv = with_default [] (env.invs.marshal inv)

parse-invite_example :
    (t : Text) × (link ≡ env.hostname ++ (str "?oob=" ++ t))
    × (inv_public_key inviter.ks ≡ ok (str "i"))
    × (parse_inv env.url env.libs.base env.invs t ≡ ok (inv, str "a", str "i"))
unfolding inv_public_key generate_inv_keys invite create_did_doc buffered create_inv
parse-invite_example =
    parse-invite env (λ t. t) laws (drawing (str "i")) uninvited inviter (str "i") link (λ t. refl)
      (λ t h. let e : enc_inv ≡ t = ok-eq h in rw (← e) ((ground arith), refl)) refl refl

-- Bob accepts, Alice answers.
abbrev invitee : Prober
invitee = starting bob (str "b")

abbrev no_request : Request
no_request = record {
  inviter = [];
  inviter_did = [];
  doc = record { context = []; id = []; services = [] };
  enc_doc = record { protected = []; iv = []; ciphertext = []; tag = [] };
  msg = record {
    id = [];
    typ = [];
    th_id = [];
    pth_id = [];
    label = [];
    goal_code = [];
    goal = [];
    did = [];
    did_doc_attach = record { id = []; mime_type = []; base64 = [] };
  };
  content = [];
  endpoint = [];
}

abbrev no_response : Response
no_response = record {
  peer_label = [];
  peer = new_peer [] [] [];
  doc = record { context = []; id = []; services = [] };
  enc_doc = record { protected = []; iv = []; ciphertext = []; tag = [] };
  msg = record {
    id = [];
    typ = [];
    th_id = [];
    did = [];
    did_doc_attach = record { id = []; mime_type = []; base64 = [] };
  };
  content = [];
  endpoint = [];
}

abbrev asked : Request
asked = with_default no_request (request env (drawing (str "x")) enc_inv invitee).0

abbrev answered : Response
answered = with_default no_response (response env (drawing (str "y")) asked.content inviter).0

abbrev invitee_waits : Prober
invitee_waits = (accept env (drawing (str "x")) enc_inv invitee).1

abbrev invitee_ends : Result Text × Prober
invitee_ends =
    process_conn_res env (looks_of env in_order invitee_waits) answered.content invitee_waits

abbrev inviter_ends : Result (Unit {0}) × Prober
inviter_ends = process_conn_req env (drawing (str "y")) asked.content inviter

exchange-connects_example :
    ((accept env (drawing (str "x")) enc_inv invitee).0 ≡ ok alice)
    × (inviter_ends.0 ≡ ok tt)
    × (invitee_ends.0 ≡ ok alice)
    × (lookup bob inviter_ends.1.peers
        ≡ some
            (new_peer asked.msg.did (str "3") (own_services (drawing (str "x")) (str "x") invitee)))
    × (lookup bob inviter_ends.1.ks.key_store ≡ some (key_of (str "y")))
    × (lookup alice invitee_ends.1.peers
        ≡ some (new_peer [] (str "3") (own_services (drawing (str "y")) (str "y") inviter)))
    × (lookup alice invitee_ends.1.ks.key_store ≡ some (key_of (str "x")))
unfolding request response invite accept parse_inv generate_keys generate_inv_keys create_did_doc
    buffered public_key private_key lookup insert ◌==◌ create_peer_did get_did add_did pack
    new_payload box seal_box encrypt_detached copied create_conn_req parse_conn_req create_conn_res
    inv_public_key inv_private_key get_peer_info unpack box_open seal_box_open decrypt_detached
    info_by_servc set_conn_prereqs own_services msg_services trim_nul first_decoded doc_services
    some_services attachment create_inv
exchange-connects_example =
    exchange-connects env (λ t. t) laws invitee inviter
      (request env (drawing (str "x")) enc_inv invitee).1
      (response env (drawing (str "y")) asked.content inviter).1 (drawing (str "x"))
      (drawing (str "y")) (str "x") (str "y") (str "i") enc_inv [] [] asked answered refl refl refl
      refl refl refl inv refl refl refl
      (record { doc_reads = λ t h. rw (← ok-eq h) refl; enc_reads = λ t h. rw (← ok-eq h) refl })
      (λ t h. rw (← ok-eq h) refl)
      (record { doc_reads = λ t h. rw (← ok-eq h) refl; enc_reads = λ t h. rw (← ok-eq h) refl })
      (λ t h. rw (← ok-eq h) refl) in_order in_order-IsRange tt tt

-- Bob writes to Alice.
abbrev writer : Prober
writer = record invitee {
  ks = record {
    inv_pub_key = none;
    inv_prv_key = none;
    key_store = (alice, key_of (str "x")) ∷ [];
  };
  peers = (alice, new_peer [] (str "3") (own_services (drawing (str "y")) (str "y") inviter)) ∷ [];
}

abbrev reader : Prober
reader = record uninvited {
  ks = record { inv_pub_key = none; inv_prv_key = none; key_store = (bob, key_of (str "y")) ∷ [] };
}

abbrev letter : Text × Text
letter = with_default ([], []) (outgoing env random alice (str "hello") writer)

read-outgoing_example :
    (letter.1 ≡ str "a") × (read_message env in_order letter.0 reader ≡ ok (bob, str "hello"))
unfolding lookup ◌==◌ outgoing peer_by_label public_key private_key own_services pack box seal_box
    encrypt_detached invite generate_inv_keys inv_public_key create_did_doc buffered
read-outgoing_example =
    read-outgoing env (λ t. t) laws in_order in_order-IsRange random alice bob (str "hello")
      letter.0 [] (str "3") (str "x") (str "y") (drawing (str "y")) inviter writer reader
      (λ h. ground arith) refl refl refl (refl, tt)
      (λ m ks h k. sym ((eq_iff bob m).0 (ground arith))) (λ m. msgs_read stepped m letter.0)
      letter.1 refl
