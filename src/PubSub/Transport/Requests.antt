-- ===== src/PubSub/Transport/Requests.antt =====
-- pubsub/processor.go: the requests of the group agent to the listeners. Both listeners work on a
-- request; the requester has the state listener's answer first.
use didcomm_prober.Prelude.{wrap, ◌>>=◌}
use Prim.Native.String.{String}
use didcomm_prober.Prelude.Exec.{Exec}
use didcomm_prober.PubSub.Transport.Messages.{ConnectMsg, SubscribeMsg, AuthMsg}
use didcomm_prober.PubSub.Transport.Sockets.{Socket}
use didcomm_prober.PubSub.Transport.Auth.{Auth}
use didcomm_prober.PubSub.Transport.Listeners.{
  Node, state_on_connect, state_on_subscribe, state_on_auth, data_on_connect, data_on_subscribe,
  data_on_auth,
}

-- the two SUB sockets and the keys
pub record Sockets : Type 0 where
  pub state : Socket
  pub content : Socket
  pub auth : Auth

-- One node each for the listeners, whose sockets answer for themselves.
request :
    String
    → String
    → Exec (Socket × Auth) (Unit {0})
    → Exec Socket (Unit {0})
    → Exec Sockets (Unit {0})
request why_state why_content on_state on_content s =
    let (r, (state, auth)) = on_state (s.state, s.auth) in
    let (q, content) = on_content s.content in
    (
      (wrap why_state r >>= λ u. wrap why_content q),
      record { state = state; content = content; auth = auth },
    )

module _ (state content : Node) where
  unfoldable pub send_connect : ConnectMsg → Exec Sockets (Unit {0})
  unfolding request
  send_connect cm =
      request "zmq state connection failed" "zmq data connection failed" (state_on_connect state cm)
        (data_on_connect content cm)

  unfoldable pub send_subscribe : SubscribeMsg → Exec Sockets (Unit {0})
  unfolding request
  send_subscribe sm =
      request "zmq state subscribe failed" "zmq data subscribe failed" (state_on_subscribe state sm)
        (data_on_subscribe content sm)

  unfoldable pub send_auth : AuthMsg → Exec Sockets (Unit {0})
  unfolding request
  send_auth am =
      request "zmq state authenticate failed" "zmq data authenticate failed"
        (state_on_auth state am) (data_on_auth content am)
