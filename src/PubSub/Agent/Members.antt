-- ===== src/PubSub/Agent/Members.antt =====
-- pubsub/agent.go: what Join does with one member of the group.
pub mod Keeping
use didcomm_prober.Prelude.{
  Text, Bool, true, Option, none, some, Result, ok, err, panic, wrap, fail, if◌then◌else◌,
}
use didcomm_prober.Prelude.Exec.{Exec, pure, lift, gets, wrapping, ◌>>=◌, ◌>>◌}
use didcomm_prober.Domain.{Member, Peer, servc_group_join, group_join, subscribe}
use didcomm_prober.Domain.GroupMessages.{
  Subscribe, ResSubscribe, ResGroupJoin, subscribe_v1, join_request_v1,
}
use didcomm_prober.Crypto.Keys.{public_key}
use didcomm_prober.Prober.Agent.Exchange.{accept}
use didcomm_prober.Prober.Agent.Services.{peer, service, sync_service}
use didcomm_prober.PubSub.Stores.Subscriber
use didcomm_prober.PubSub.Node.{Node, GroupEnv, acceptance, pack, on_prober, modify}
use didcomm_prober.PubSub.Processor.{read, keys_of, authenticate, connect_subscriber}
use didcomm_prober.PubSub.Agent.{own_member, inv_of}

-- the query parameter, if the URL has it
oob_given : Option Text → Result Text
oob_given none = fail "invitation url does not contain oob query param"
oob_given (some inv) = ok inv

module _ (e : GroupEnv) where
  -- SyncAccept, which waits for the connection response
  sync_accept : Text → Exec Node (Unit {0})
  sync_accept encoded = do
    inviter ←
        wrapping "accepting invitation failed"
          (on_prober (accept e.agent (e.fresh encoded) encoded))
    modify (e.others (acceptance inviter))

  accept_member : Member → Exec Node (Unit {0})
  unfolding oob_given sync_accept
  accept_member m = do
    query ← lift (wrap "parsing invitation url failed" (e.oob_of m.inv))
    encoded ← lift (oob_given query)
    wrapping "accepting group-member invitation failed" (sync_accept encoded)

  connect_known : Member → Result Peer → Exec Node (Unit {0})
  connect_known m (ok pr) = pure tt
  connect_known m (err why) = accept_member m
  connect_known m panic = lift panic

  unfoldable pub connect_did_comm : Member → Exec Node (Unit {0})
  unfolding connect_known accept_member
  connect_did_comm m n = connect_known m (peer m.label n.prober) n

  -- the message by which this node subscribes
  unfoldable pub subscription : Text → Bool → Text → Node → Subscribe
  unfolding keys_of
  subscription topic publishes key n = record {
    id = e.uuid;
    typ = subscribe_v1;
    subscribe = true;
    pub_key = e.agent.libs.base.encode58 key;
    topic = topic;
    member = own_member true publishes (inv_of topic n) n;
    transport = keys_of n;
  }

  unfoldable pub subscribe_data : Text → Bool → Member → Exec Node ResSubscribe
  unfolding subscription
  subscribe_data topic publishes m = do
    key ←
        gets (λ n.
          wrap "fetching public key for the connection failed" (public_key m.label n.prober.ks))
    sm ← gets (λ n. ok (subscription topic publishes key n))
    byts ← lift (wrap "marshalling subscribe message failed" (e.subscribes.marshal sm))
    s ← gets (λ n.
        wrap "fetching service info failed for peer" (service servc_group_join m.label n.prober))
    content ←
        gets (λ n. wrap "packing subscribe request failed" (pack e m.label (some s.pub_key) byts n))
    res ← lift (wrap "sending subscribe message failed" (e.ask subscribe content s.endpoint))
    (sender, body) ← gets (λ n. wrap "reading subscribe didcomm response failed" (read e res n))
    lift (
        wrap "unmarshalling didcomm message into subscribe response struct failed"
          (e.sub_results.unmarshal body))

  -- a publisher keeps the key for which it packs its messages to the member
  note_subscriber : Text → Member → Exec Node (Unit {0})
  note_subscriber topic m = do
    s ← gets (λ n.
        wrap "fetching service info failed for peer" (service servc_group_join m.label n.prober))
    modify (λ n. record n { subs = Subscriber.add topic m.label (some s.pub_key) n.subs })

  unfoldable pub connect_member : Text → Bool → Member → ResSubscribe → Exec Node (Unit {0})
  unfolding note_subscriber
  connect_member topic publishes m res = do
    wrapping "sending internal auth message failed" (
        authenticate e m.label res.transport.servr_pub_key res.transport.client_pub_key
          res.publisher)
    wrapping "sending connect message failed" (connect_subscriber e topic m)
    if publishes then note_subscriber topic m else pure tt

  unfoldable pub req_state : Text → Text → Text → Exec Node ResGroupJoin
  req_state topic acceptor inv = do
    s ← gets (λ n.
        wrap "fetching service info failed for peer"
          (sync_service servc_group_join acceptor (e.looks n.prober)))
    own ← gets (λ n. ok n.my_label)
    byts ← lift (
        wrap "marshalling group-join request failed" (
          e.join_requests.marshal (record {
            id = e.uuid;
            typ = join_request_v1;
            label = own;
            topic = topic;
            requester_inv = inv;
          })))
    content ← gets (λ n. wrap "packing join-req failed" (pack e acceptor (some s.pub_key) byts n))
    res ← lift (wrap "group-join request failed" (e.ask group_join content s.endpoint))
    (sender, body) ← gets (λ n. wrap "unpacking group-join response failed" (read e res n))
    lift (wrap "unmarshalling group-join response failed" (e.join_results.unmarshal body))
