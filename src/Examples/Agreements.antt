-- ===== src/Examples/Agreements.antt =====
-- A run of a join that asks for a consistent view.
use didcomm_prober.PubSub.Transport.Topics.{data_topic}
use didcomm_prober.PubSub.Stores.Group.{add_membrs, membrs, mode}
use didcomm_prober.PubSub.Transport.Sockets.{call, connect_state, connect_data}
use didcomm_prober.PubSub.Transport.Auth.{set_peer_state_authn, set_peer_data_authn}
use didcomm_prober.PubSub.Transport.Listeners.{
  state_on_connect, data_on_connect, state_on_auth, data_on_auth,
}
use didcomm_prober.PubSub.Transport.Requests.{send_auth, send_connect}
use didcomm_prober.PubSub.Processor.{authenticate, connect_subscriber}
use didcomm_prober.Prober.Agent.{read_message, peer_by_msg}
use didcomm_prober.Crypto.Cipher.{
  box, seal_box, encrypt_detached, copied, box_open, seal_box_open, decrypt_detached,
}
use didcomm_prober.Crypto.Packer.{new_payload, unpack}
use didcomm_prober.Crypto.Keys.{public_key, private_key}
use didcomm_prober.Prober.Peers.{peer_by_label}
use didcomm_prober.Prober.Agent.Services.{peer, service}
use didcomm_prober.Prelude.Buffers.{buffered, trim_nul}
use didcomm_prober.PubSub.Agent.Members.{subscribe_data, connect_did_comm, connect_member}
use didcomm_prober.Prelude.{
  ◌≡◌, refl, Text, str, ◌==◌, lookup, insert, true, false, none, List, [], ◌∷◌, Result, ok, err,
  panic, fail, arith, Assoc, text_le,
}
use didcomm_prober.Domain.{Member}
use didcomm_prober.Domain.GroupMessages.{ResSubscribe, ResGroupJoin}
use didcomm_prober.Crypto.Packer
use didcomm_prober.Crypto.Keys
use didcomm_prober.PubSub.Validator.{calculate, valid_join, verify}
use didcomm_prober.PubSub.Node.{Node, GroupEnv, pack, auth_node, connect_node}
use didcomm_prober.PubSub.Agent.{init_clock}
use didcomm_prober.PubSub.Agent.Join.{
  waiting, collect, response_of, settle, connect_all, check_view, judged, wait_for_conns,
}
use didcomm_prober.PubSub.Agent.Join.Agreement.{settle-agreed}
use didcomm_prober.Examples.{in_order-IsRange, alice, bob, carol, chess, member, digest}
use didcomm_prober.Examples.Nodes.{group_env, alice_node, chess_group, single}
use didcomm_prober.Examples.Packing.{libs, random}

abbrev text_of : Result Text → Text
text_of (ok t) = t
text_of (err why) = []
text_of panic = []

-- carol accepts, and bob is asked; carol is not active any more.
abbrev members : List Member
members = record (member carol) { active = false } ∷ member bob ∷ []

abbrev group : ResGroupJoin
group = record { id = str "1"; typ = []; params = single; members = members }

abbrev sum : Text
sum = text_of (calculate digest members)

-- alice's node once the parameters are set
abbrev before : Node
before = alice_node ((chess, record chess_group { members = none }) ∷ [])

-- bob's answer, packed for alice's key
abbrev packed : Text → Result Text
packed body = elim (Packer.pack libs random body alice bob bob) [
  | ok msg ↦ libs.msgs.marshal msg
  | err why ↦ err why
  | panic ↦ panic
]

abbrev asking : GroupEnv
asking = record group_env {
  subscribes = record { marshal = λ s. ok s.id; unmarshal = λ t. fail "no json" };
  sub_results = record {
    marshal = λ r. ok r.checksum;
    unmarshal = λ t. ok (record {
      publisher = true;
      transport = record { servr_pub_key = str "s"; client_pub_key = str "c" };
      checksum = t;
    });
  };
  ask = λ typ content endpoint. packed sum;
}

settle-agreed_example :
    (responses : Assoc ResSubscribe) × ((collect asking chess false members []
        (init_clock asking chess true before).1).0
      ≡ ok responses)
    × ((response_of bob responses).checksum ≡ sum)
unfolding settle init_clock collect connect_did_comm subscribe_data connect_all connect_member
    check_view judged calculate buffered trim_nul lookup insert ◌==◌ peer peer_by_label public_key
    private_key service pack Packer.pack new_payload box seal_box encrypt_detached copied
    read_message peer_by_msg Keys.peer unpack box_open seal_box_open decrypt_detached authenticate
    auth_node send_auth connect_subscriber connect_node send_connect state_on_connect
    data_on_connect state_on_auth data_on_auth set_peer_state_authn set_peer_data_authn call
    valid_join verify add_membrs membrs mode wait_for_conns connect_state connect_data data_topic
    text_le
settle-agreed_example =
    settle-agreed asking chess carol false (str "inv") sum group waiting before (member bob)
      (record (member carol) { active = false } ∷ []) [] in_order-IsRange in_order-IsRange refl refl
      (omega arith) refl refl refl (λ h. ground arith)
