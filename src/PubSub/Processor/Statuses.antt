-- ===== src/PubSub/Processor/Statuses.antt =====
-- pubsub/processor.go: the status messages of a group.
pub mod Keeping
use didcomm_prober.Prelude.{
  Text, ◌==◌, true, false, none, some, List, [], ◌∷◌, Result, ok, err, panic, fail, wrap,
  if◌then◌else◌,
}
use didcomm_prober.Prelude.Exec.{Exec, pure, lift, gets, wrapping, ◌>>=◌, ◌>>◌}
use didcomm_prober.Domain.{Member, status_ack, null, hello_prefix}
use didcomm_prober.Domain.GroupMessages.{Status}
use didcomm_prober.Prober.Agent.{send_message}
use didcomm_prober.Prober.Agent.Services.{valid_conn}
use didcomm_prober.PubSub.Stores.Group.{add_membrs, delete_membr}
use didcomm_prober.PubSub.Stores.Subscriber
use didcomm_prober.PubSub.Transport.Auth.{remv_keys}
use didcomm_prober.PubSub.Node.{Node, GroupEnv, on_gs, on_sockets, modify}
use didcomm_prober.PubSub.Processor.{read, on_auth, connect_to, subscribe_to}

module _ (e : GroupEnv) where
  unfoldable pub remove_member : Member → Text → Exec Node (Unit {0})
  unfolding connect_to on_auth
  remove_member m topic = do
    wrapping "sending connect message failed"
        (connect_to e false (record { role = null; label = [] }) [] m)
    if m.publisher
        then (do
          own ← gets (λ n. ok n.my_label)
          wrapping "sending internal subscribe message failed"
              (subscribe_to e false false false true topic own m))
        else pure tt
    modify (λ n. record n { subs = Subscriber.delete topic m.label n.subs })
    wrapping "deleting member failed" (on_gs (delete_membr e.digest e.range_members topic m.label))
    wrapping "removing zmq transport keys failed" (on_sockets (on_auth (remv_keys m.label)))

  unfoldable pub extract_status : Text → Result Status
  extract_status msg = elim (e.decompress msg) [
    | ok out ↦ wrap "unmarshal error" (e.statuses.unmarshal out)
    | err why ↦ err ("decode error" ∷ why)
    | panic ↦ panic
  ]

  -- the loop of `state`: the first message under the thread of a connection, or nothing
  unfoldable pub first_valid : List (Text × Text) → Node → Text
  first_valid [] n = []
  first_valid ((exch_id, enc_msg) ∷ rest) n = elim (valid_conn e.range_peers exch_id n.prober) [
    | none ↦ first_valid rest n
    | some pr ↦ enc_msg
  ]

  on_status_of : Text → Member → Exec Node (Unit {0})
  on_status_of topic m =
      if m.active
      then wrapping "adding member failed"
          (on_gs (add_membrs e.digest e.range_members topic (m ∷ [])))
      else wrapping "removing member failed" (remove_member m topic)

  unfoldable pub state : Text → Exec Node (Unit {0})
  unfolding on_status_of
  state msg = do
    status ← lift (wrap "extracting status message failed" (extract_status msg))
    valid ← gets (λ n. ok (first_valid (e.range_texts status.auth_msgs) n))
    lift (if valid == [] then fail "status update is not intended to this member" else ok tt)
    (sender, auth_msg) ← gets (λ n. wrap "reading status didcomm message failed" (read e valid n))
    if auth_msg == hello_prefix
        then gets (λ n.
          wrap "sending hello ack failed"
            (send_message e.agent (e.draw sender) status_ack sender n.pub_endpoint n.prober))
        else (do
          m ← lift (wrap "unmarshalling member message failed" (e.members.unmarshal auth_msg))
          on_status_of status.topic m)
