-- ===== src/PubSub/Transport/Auth.antt =====
-- pubsub/transport/auth.go: the transport keys of this node and of its peers. AuthCurveAdd and
-- AuthCurveRemove of zmq4 keep the list of the client keys that may connect.
use Prim.Native.String.{String}
use didcomm_prober.Prelude.{
  Text, ◌==◌, Assoc, lookup, insert, remove, none, some, List, [], ◌∷◌, Result, ok, err, panic,
  fail, wrap, ◌>>=◌, if◌then◌else◌,
}
use didcomm_prober.Prelude.Exec.{Exec}
use didcomm_prober.PubSub.Transport.Sockets.{Answers, Socket, call, client_auth}

pub record PeerKeys : Type 0 where
  pub servr : Text
  pub client : Text

pub record Auth : Type 0 where
  pub id : Text
  pub servr_pub : Text
  pub servr_prvt : Text
  pub client_pub : Text
  pub client_prvt : Text
  pub keys : Assoc PeerKeys
  pub allowed : List Text

abbrev new_auth : Text → Auth
new_auth label = record {
  id = label;
  servr_pub = [];
  servr_prvt = [];
  client_pub = [];
  client_prvt = [];
  keys = [];
  allowed = [];
}

-- What AuthStart answers: no error, the error "Auth is already running", or another one.
pub data AuthStart : Type 0 where
  starts runs_already : AuthStart
  does_not : List String → AuthStart

auth_started : AuthStart → Result (Unit {0})
auth_started starts = ok tt
auth_started runs_already = ok tt
auth_started (does_not e) = err ("starting zmq authenticator failed" ∷ e)

-- generateCerts on the two pairs that NewCurveKeypair draws
unfoldable pub generate_certs :
    Result (Text × Text) → Result (Text × Text) → Auth → Result (Unit {0}) × Auth
generate_certs servr client a = elim servr [
  | ok (servr_pub, servr_prvt) ↦ elim client [
    | ok (client_pub, client_prvt) ↦ (
      ok tt,
      record a {
        servr_pub = servr_pub;
        servr_prvt = servr_prvt;
        client_pub = client_pub;
        client_prvt = client_prvt;
      },
    )
    | err e ↦ (err ("generating curve key pair for client failed" ∷ e), a)
    | panic ↦ (panic, a)
  ]
  | err e ↦ (err ("generating curve key pair for server failed" ∷ e), a)
  | panic ↦ (panic, a)
]

-- `authenticator`, with the two pairs that are drawn
unfoldable pub authenticator :
    AuthStart → Result (Text × Text) → Result (Text × Text) → Text → Result Auth
unfolding auth_started
authenticator started servr client label = do
  _ ← auth_started started
  let (made, a) = generate_certs servr client (new_auth label)
  _ ← wrap "initializing certficates failed" made
  ok a

-- setPubAuthn on the answers of SetIdentity and ServerAuthCurve, which get the id and the private key
unfoldable pub set_pub_authn :
    (Text → Result (Unit {0})) → (Text → Result (Unit {0})) → Auth → Result (Unit {0})
set_pub_authn set_identity server_auth a = do
  _ ← wrap "setting socket identity failed" (set_identity a.id)
  _ ← wrap "setting curve authentication to zmq server socket failed" (server_auth a.servr_prvt)
  ok tt

unfoldable pub drop_key : Text → List Text → List Text
drop_key k [] = []
drop_key k (j ∷ ks) = let rest = drop_key k ks in if j == k then rest else j ∷ rest

unfoldable pub add_client_pub_key : Text → Auth → Auth
add_client_pub_key key a = record a { allowed = key ∷ a.allowed }

-- the end of `setPeerStateAuthn`, after the socket's answer
unfoldable pub store_keys :
    Text → PeerKeys → Auth → Result (Unit {0}) × Socket → Result (Unit {0}) × (Socket × Auth)
store_keys peer ks a (ok u, s) = (ok tt, (s, record a { keys = insert peer ks a.keys }))
store_keys peer ks a (err e, s) = (err e, (s, a))
store_keys peer ks a (panic, s) = (panic, (s, a))

unfoldable pub set_peer_state_authn : Answers → Text → Text → Text → Exec (Socket × Auth) (Unit {0})
unfolding add_client_pub_key store_keys
set_peer_state_authn answers peer serv client (s, a) =
    store_keys peer (record { servr = serv; client = client }) (add_client_pub_key client a)
      (call answers "setting curve client authentication to zmq state socket failed"
        (client_auth serv) s)

unfoldable pub set_peer_data_authn : Answers → Text → Exec Socket (Unit {0})
set_peer_data_authn answers serv =
    call answers "setting curve client authentication to zmq data socket failed" (client_auth serv)

unfoldable pub remv_keys : Text → Exec Auth (Unit {0})
unfolding drop_key
remv_keys peer a = elim (lookup peer a.keys) [
  | none ↦ (fail "loading transport keys failed", a)
  | some ks ↦
      (ok tt, record a { keys = remove peer a.keys; allowed = drop_key ks.client a.allowed })
]
