-- ===== src/Examples/Agents.antt =====
-- Runs of the group agent.
use didcomm_prober.Prelude.{
  ℕ, ◌≡◌, ◌≢◌, ◌⊎◌, refl, eq_iff, false, ◌==◌, Text, str, All, lookup, insert, true, some, List, [],
  ◌∷◌, ◌++◌, ◌-◌, length, Result, ok, err, panic, fail, arith,
}
use didcomm_prober.Prelude.Int.{pos}
use didcomm_prober.Prelude.Buffers.{buffered, trim_nul, nuls}
use didcomm_prober.Domain.{Member, Peer, valid_mode}
use didcomm_prober.Domain.GroupMessages.{Status, ResGroupJoin}
use didcomm_prober.Prober.Agent.Services.{peer, service}
use didcomm_prober.PubSub.Validator.{calculate, order}
use didcomm_prober.PubSub.Stores.Group.{
  mode, Group, checksum, membrs, membr, set_params, add_membrs,
}
use didcomm_prober.PubSub.Stores.Group.Sound.{IsSound}
use didcomm_prober.PubSub.Stores.Group.Reads.{member_of}
use didcomm_prober.PubSub.Stores.Group.Refinement.{
  Op, adds, deletes, sets, apply_all, all_on_table, apply_all_refines,
}
use didcomm_prober.Prober.Peers.{peer_by_label}
use didcomm_prober.Prober.Agent.Exchange.{invite}
use didcomm_prober.Crypto.Keys.{public_key, private_key, generate_inv_keys, inv_public_key}
use didcomm_prober.Crypto.Packer
use didcomm_prober.Crypto.Cipher.{box, seal_box, encrypt_detached}
use didcomm_prober.PubSub.Stores.Subscriber.{SubKey, query_by_topic}
use didcomm_prober.DidComm.Did.{create_did_doc}
use didcomm_prober.DidComm.Invitation.{create_inv}
use didcomm_prober.PubSub.Node.{send_publish, Node, GroupEnv, pack}
use didcomm_prober.PubSub.Processor.Statuses.{extract_status}
use didcomm_prober.PubSub.Agent.{
  publish_one, publish_each, compress_status, auth_msg, auth_msgs, create, send, leave, own_member,
  inv_of,
}
use didcomm_prober.PubSub.Agent.Notices.{IsFiled, extract-compress_status}
use didcomm_prober.PubSub.Agent.Sending.{HasSent, send_lem}
use didcomm_prober.PubSub.Agent.Leaving.{HasLeft, leave_lem}
use didcomm_prober.PubSub.Agent.Join.{enter, join}
use didcomm_prober.PubSub.Views.{Event, creates, sends, leaves, run, handle}
use didcomm_prober.PubSub.Views.Soundness.{IsOrderly, run-IsSound, views_agree}
use didcomm_prober.PubSub.Syncer.{message}
use didcomm_prober.PubSub.Transport.Topics.{data_topic}
use didcomm_prober.PubSub.Views.Rejoining.{join_again}
use didcomm_prober.Examples.{in_order, in_order-IsRange, alice, bob, chess, member, digest, written}
use didcomm_prober.Examples.Nodes.{group_env, alice_node, chess_group, single, statuses_read}

calculable : (m : Member) (ms : List Member) → (h : Text) × (calculate digest (m ∷ ms) ≡ ok h)
unfolding calculate buffered
calculable m ms =
    let t : Text = written (order (m ∷ ms)) in
    (trim_nul (t ++ nuls (length t - length t)), ground arith)

orderly : IsOrderly digest group_env
orderly = record { same = refl; ranges = in_order-IsRange; waits = λ w n s. s }

abbrev created : List (GroupEnv × Event)
created = (group_env, creates chess true single) ∷ []

abbrev created_and_sent : List (GroupEnv × Event)
created_and_sent =
    (group_env, creates chess true single) ∷ (group_env, sends chess (str "hello")) ∷ []

run-IsSound_example : IsSound digest (run created_and_sent (alice_node [])).gs
unfolding lookup
run-IsSound_example =
    run-IsSound digest calculable created_and_sent (alice_node []) (orderly, (orderly, tt))
      (λ t g e. cc)

abbrev alice_in : Node
alice_in = alice_node ((chess, chess_group) ∷ [])

-- alice's group, as she creates it
abbrev made : Group
made = record {
  topic = [];
  checksum = str "alice.";
  members = some (
      (
        alice,
        record {
          active = true;
          publisher = true;
          label = alice;
          inv = str "tcp?oob=2";
          pub_endpoint = str "tcp";
        },
      )
      ∷ []);
  params = some single;
  last_updated = pos 0;
}

views_agree_example :
    checksum chess (run created (alice_node [])).gs
    ≡ checksum chess (run created_and_sent (alice_node [])).gs
unfolding lookup run handle create invite generate_inv_keys inv_public_key create_did_doc buffered
    create_inv set_params valid_mode ◌==◌ add_membrs insert calculate send membr query_by_topic
views_agree_example =
    views_agree digest calculable created created_and_sent (alice_node []) (alice_node []) chess
      made made (orderly, tt) (orderly, (orderly, tt)) refl refl refl refl (ground arith)
      (ground arith) (λ l. refl)

one_thread :
    (k l : Text) (p q : Peer)
    → peer k alice_in.prober ≡ ok p
    → peer l alice_in.prober ≡ ok q
    → p.exchange_th_id ≡ q.exchange_th_id
    → k ≡ l
unfolding peer peer_by_label lookup
one_thread k l p q at_k at_l same = ground (arith, at_k, at_l, eq_iff bob k, eq_iff bob l)

abbrev text_of : Result Text → Text
text_of (ok t) = t
text_of (err why) = []
text_of panic = []

abbrev notice : Text
notice = text_of (compress_status group_env chess false true alice_in).0

extract-compress_status_example :
    (s : Status) × (byts : Text) × (extract_status group_env notice ≡ ok s)
    × (s.topic ≡ chess)
    × (group_env.members.marshal (own_member false true (inv_of chess alice_in) alice_in) ≡ ok byts)
    × All
        (λ m. (m.label ≡ alice_in.my_label) ⊎ IsFiled group_env byts alice_in m s.auth_msgs)
        (membrs group_env.range_members chess alice_in.gs)
unfolding compress_status auth_msgs membrs lookup ◌==◌ auth_msg peer peer_by_label service pack
    public_key private_key Packer.pack box seal_box encrypt_detached insert
extract-compress_status_example =
    extract-compress_status group_env chess false true alice_in notice one_thread statuses_read
      (λ t. refl) refl

leave_lem_example :
    let n = alice_in in
    let left = leave group_env chess n in
    ((left.0 ≡ ok tt) × HasLeft group_env chess n left.1)
    ⊎ ((left.0 ≢ ok tt) × (left.1.gs ≡ n.gs) × (left.1.subs ≡ n.subs))
leave_lem_example = leave_lem group_env chess alice_in

abbrev joined_group : ResGroupJoin
joined_group = record { id = str "1"; typ = []; params = single; members = member bob ∷ [] }

-- alice after the answer of the acceptor, and after two more events
abbrev joining : Node
joining = (enter group_env chess bob true (str "inv") joined_group (alice_node [])).1

abbrev meanwhile : List (GroupEnv × Event)
meanwhile = (group_env, sends chess bob) ∷ (group_env, leaves bob) ∷ []

bob_not_chess : (t : Text) → leaves bob ≡ leaves t → (t == chess) ≡ false
unfolding ◌==◌
bob_not_chess t h = let e : bob ≡ t = cc in rw (← e) refl

join_again_example :
    join group_env chess bob true (run meanwhile joining)
    ≡ (fail "already connected to group", run meanwhile joining)
unfolding valid_mode ◌==◌
join_again_example =
    join_again chess group_env group_env bob bob (str "inv") true true joined_group (alice_node [])
      meanwhile refl (λ w k j. j) (((λ t h. cc), (λ w k j. j)), ((bob_not_chess, (λ w k j. j)), tt))

abbrev ops : List Op
ops = adds chess (member bob ∷ []) ∷ sets chess single ∷ deletes chess alice ∷ []

apply_all_refines_example :
    member_of chess bob (apply_all digest in_order ops [])
    ≡ all_on_table ops (λ t l. member_of t l []) chess bob
apply_all_refines_example = apply_all_refines digest in_order ops [] chess bob

-- alice's node, with bob as a subscriber
abbrev alice_sends : Node
alice_sends = record alice_in { subs = (chess, (bob, some bob) ∷ []) ∷ [] }

abbrev sizes_of : Result (List ℕ) → List ℕ
sizes_of (ok ns) = ns
sizes_of (err why) = []
sizes_of panic = []

abbrev sizes : List ℕ
sizes = sizes_of (send group_env chess (str "hello") alice_sends).0

send_lem_example :
    (own : Member) × (subs : SubKey) × (membr in_order chess alice alice_in.gs ≡ some own)
    × (own.publisher ≡ true)
    × (query_by_topic chess alice_sends.subs ≡ ok subs)
    × HasSent chess subs alice_sends (send group_env chess (str "hello") alice_sends).1 sizes
unfolding send membr query_by_topic lookup ◌==◌ publish_each publish_one pack public_key private_key
    Packer.pack box seal_box encrypt_detached message data_topic mode send_publish
send_lem_example = send_lem group_env chess (str "hello") alice_sends sizes refl
