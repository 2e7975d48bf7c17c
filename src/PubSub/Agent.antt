-- ===== src/PubSub/Agent.antt =====
-- pubsub/agent.go: creating and leaving a group, sending to it, and the status messages.
pub mod Members
pub mod Join
pub mod Keeping
pub mod Notices
pub mod Leaving
pub mod Sending
use didcomm_prober.Prelude.{
  ℕ, Text, ◌==◌, Assoc, lookup, insert, Bool, true, false, Option, none, some, List, [], ◌∷◌,
  length, map, Result, ok, err, panic, fail, wrap, if◌then◌else◌,
}
use Prim.Native.String.{String}
use didcomm_prober.Prelude.Exec.{Exec, pure, lift, gets, wrapping, ◌>>=◌, ◌>>◌}
use didcomm_prober.Domain.{Member, GroupParams, servc_group_join}
use didcomm_prober.Domain.GroupMessages.{Status, member_status_v1}
use didcomm_prober.Prober.Agent.Exchange.{invite}
use didcomm_prober.Prober.Agent.Services.{peer, service}
use didcomm_prober.PubSub.Stores.Group
use didcomm_prober.PubSub.Stores.Group.{membrs, membr, set_params, add_membrs, params}
use didcomm_prober.PubSub.Stores.Subscriber
use didcomm_prober.PubSub.Stores.Subscriber.{SubKey, query_by_topic}
use didcomm_prober.PubSub.Syncer
use didcomm_prober.PubSub.Transport.Topics.{data_topic, state_topic}
use didcomm_prober.PubSub.Node.{
  Node, GroupEnv, pack, send_publish, on_gs, on_prober, on_syncr, modify,
}
use didcomm_prober.PubSub.Processor.{subscribe_to}

-- this node as a member
abbrev pub own_member : Bool → Bool → Text → Node → Member
own_member active publishes inv n = record {
  active = active;
  publisher = publishes;
  label = n.my_label;
  inv = inv;
  pub_endpoint = n.pub_endpoint;
}

-- `a.invs[topic]`
abbrev pub inv_of : Text → Node → Text
inv_of topic n = elim (lookup topic n.invs) [ none ↦ [] | some inv ↦ inv ]

-- models.Member{}
abbrev pub no_member : Member
no_member = record { active = false; publisher = false; label = []; inv = []; pub_endpoint = [] }

pub is_publisher : Text → List Member → Bool
is_publisher label [] = false
is_publisher label (m ∷ ms) = if m.label == label then m.publisher else is_publisher label ms

some_members : List Member → Result (Unit {0})
some_members [] = fail "no members found"
some_members (m ∷ ms) = ok tt

own_publisher : Option Member → Result (Unit {0})
own_publisher none = fail "member information does not exist for the current member"
own_publisher (some m) =
    if m.publisher then ok tt else fail "current member is not registered as a publisher"

module _ (e : GroupEnv) where
  -- a.invs[topic] = inv, after `Invite`
  unfoldable pub invite_to : Text → Exec Node Text
  invite_to topic = do
    inv ← wrapping "generating invitation failed" (on_prober (invite e.agent (e.fresh [])))
    modify (λ n. record n { invs = insert topic inv n.invs })
    pure inv

  unfoldable pub init_clock : Text → Bool → Exec Node (Unit {0})
  init_clock topic ordered =
      if ordered
      then modify (λ n. record n { syncr = Syncer.init topic e.now n.syncr })
      else pure tt

  unfoldable pub create : Text → Bool → GroupParams → Exec Node (Unit {0})
  unfolding invite_to init_clock
  create topic publishes gp = do
    inv ← invite_to topic
    wrapping "updating group params failed" (on_gs (set_params topic gp))
    m ← gets (λ n. ok (own_member true publishes inv n))
    wrapping "adding group creator failed"
        (on_gs (add_membrs e.digest e.range_members topic (m ∷ [])))
    init_clock topic gp.order_enabled

  -- one message of a status, with the thread that it is filed under
  unfoldable pub auth_msg : String → Text → Member → Node → Result (Text × Text)
  auth_msg unpacked byts m n = elim (peer m.label n.prober) [
    | ok pr ↦ elim (service servc_group_join m.label n.prober) [
      | ok s ↦ elim (pack e m.label (some s.pub_key) byts n) [
        | ok content ↦ ok (pr.exchange_th_id, content)
        | err why ↦ err (unpacked ∷ why)
        | panic ↦ panic
      ]
      | err why ↦ err ("fetching service info failed for peer" ∷ why)
      | panic ↦ panic
    ]
    | err why ↦ err ("fetching peer failed" ∷ why)
    | panic ↦ panic
  ]

  -- the loop of `compressStatus`: one message for each member but this node
  unfoldable pub auth_msgs : Text → List Member → Assoc Text → Exec Node (Assoc Text)
  auth_msgs byts [] msgs = pure msgs
  auth_msgs byts (m ∷ ms) msgs = do
    own ← gets (λ n. ok n.my_label)
    if m.label == own then auth_msgs byts ms msgs else (do
      (thread, content) ← gets (auth_msg "packing message failed" byts m)
      auth_msgs byts ms (insert thread content msgs))

  unfoldable pub compress_status : Text → Bool → Bool → Exec Node Text
  compress_status topic active publishes = do
    m ← gets (λ n. ok (own_member active publishes (inv_of topic n) n))
    byts ← lift (wrap "marshalling member failed" (e.members.marshal m))
    mems ← gets (λ n. ok (membrs e.range_members topic n.gs))
    msgs ← auth_msgs byts mems []
    encoded ← lift (
        wrap "marshalling status message failed" (
          e.statuses.marshal
            (record { id = e.uuid; typ = member_status_v1; topic = topic; auth_msgs = msgs })))
    pure (e.compress encoded)

  unfoldable pub notify_all : Text → Bool → Bool → Exec Node (Unit {0})
  notify_all topic active publishes = do
    content ← wrapping "compress status failed" (compress_status topic active publishes)
    wrapping "sending internal publish message failed" (send_publish e (state_topic topic) content)

  unfoldable pub leave : Text → Exec Node (Unit {0})
  unfolding some_members is_publisher
  leave topic = do
    own ← gets (λ n. ok n.my_label)
    wrapping "sending internal subscribe message failed"
        (subscribe_to e false true true true topic own no_member)
    mems ← gets (λ n. ok (membrs e.range_members topic n.gs))
    lift (some_members mems)
    wrapping "publishing inactive status failed" (notify_all topic false (is_publisher own mems))
    modify (λ n. record n {
      subs = Subscriber.delete_topic topic n.subs;
      gs = Group.delete_topic topic n.gs;
    })

  -- one round of the loop of `Send`; the size of what was published
  unfoldable pub publish_one : Text → Text → Text → Option Text → Exec Node ℕ
  publish_one topic msg sub key = do
    packed ← gets (λ n. wrap "packing data message failed" (pack e sub key msg n))
    to ← gets (λ n. data_topic n.gs topic n.my_label sub)
    wrapping "sending internal publish message failed" (send_publish e to packed)
    pure (length packed)

  unfoldable pub publish_each : Text → Text → SubKey → Exec Node (List ℕ)
  publish_each topic msg [] = pure []
  publish_each topic msg ((sub, key) ∷ subs) = do
    size ← publish_one topic msg sub key
    sizes ← publish_each topic msg subs
    pure (size ∷ sizes)

  unfoldable pub send : Text → Text → Exec Node (List ℕ)
  unfolding own_publisher
  send topic msg = do
    gets (λ n. own_publisher (membr e.range_members topic n.my_label n.gs))
    subs ← gets (λ n. wrap "fetching subscribers failed" (query_by_topic topic n.subs))
    synced ←
        wrapping "constructing ordered group message failed"
          (on_syncr (Syncer.message e.group_msgs topic msg e.now))
    publish_each topic synced (e.range_subs subs)

-- models.GroupParams{}
abbrev pub no_params : GroupParams
no_params = record { order_enabled = false; join_consistent = false; mode = [] }

without_inv : Member → Member
without_inv m = record m { inv = [] }

-- The parameters and the members of a group, without their invitations.
unfoldable pub info : (List Member → List Member) → Text → Group.Store → GroupParams × List Member
unfolding without_inv
info order topic gs =
    let mems = map without_inv (membrs order topic gs) in
    elim (params topic gs) [ none ↦ (no_params, mems) | some gp ↦ (gp, mems) ]
