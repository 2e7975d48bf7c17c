-- ===== src/Start.antt =====
-- bootstrap.go and main.go, and the constructors that they call: NewProber of prober/agent.go,
-- InitPeerStore of pubsub/transport/peers.go, NewAgent of pubsub/agent.go and NewDiscoverer of
-- didcomm/discovery/handler.go. Log.Fatal, which ends the process, is an error.
pub mod Handlers
use didcomm_prober.Prelude.{
  ℕ, Bool, true, false, Text, str, ◌++◌, List, [], ◌∷◌, Result, ok, err, panic, fail, wrap, ◌>>=◌,
}
use didcomm_prober.Prelude.Int.{ℤ}
use didcomm_prober.Domain
use didcomm_prober.Domain.{conn_req, conn_res, data_msg, query, group_join, status_ack}
use didcomm_prober.Crypto.Keys.{new_key_manager}
use didcomm_prober.Prober.Agent.{Prober}
use didcomm_prober.ReqRep.Server.{Handlrs, add_handler}
use didcomm_prober.PubSub.Syncer.{new_syncer}
use didcomm_prober.PubSub.Transport.Connector.{new_zmq_transport}
use didcomm_prober.PubSub.Transport.Auth.{AuthStart}
use didcomm_prober.PubSub.Transport.Messages.{
  topic_connect, topic_subscribe, topic_authenticate, topic_term,
}
use didcomm_prober.PubSub.Transport.Sockets.{Socket, connect, subscribe}
use didcomm_prober.PubSub.Node.{Node}

-- the arguments of the process that are modelled
pub record Args : Type 0 where
  pub name : Text
  pub port : ℤ
  pub pub_port : ℤ

pub record Config : Type 0 where
  pub name : Text
  pub hostname : Text
  pub inv_endpoint : Text
  pub pub_endpoint : Text

first_ip : List Text → Result Text
first_ip [] = fail "could not find an ip address within the kernel"
first_ip (ip ∷ ips) = ok ip

-- the endpoints of the connector that are drawn for the two listeners
pub record Endpoints : Type 0 where
  pub state : Text
  pub content : Text

-- What the start calls and draws: strconv.Itoa, os.Hostname, net.LookupIP, the id of the syncer, the
-- compressor, and what the transport of the groups draws.
pub record Outside : Type 0 where
  pub itoa : ℤ → Text
  pub host_name : Result Text
  pub lookup_ip : Text → Result (List Text)
  pub sender_id : ℤ
  pub compactor : Result (Unit {0})
  pub endpts : Endpoints
  pub auth_start : AuthStart
  pub servr : Result (Text × Text)
  pub client : Result (Text × Text)

unfoldable pub set_configs : Outside → Args → Result Config
unfolding first_ip
set_configs o args = do
  hn ← wrap "fetching hostname failed" o.host_name
  ips ← wrap "fetching ip address failed" (o.lookup_ip hn)
  first ← first_ip ips
  let ip = str "tcp://" ++ (first ++ str ":")
  ok (record {
    name = args.name;
    hostname = ip;
    inv_endpoint = ip ++ o.itoa args.port;
    pub_endpoint = ip ++ o.itoa args.pub_port;
  })

-- The channels that the handlers read, which are numbers.
pub record Streams : Type 0 where
  pub conn_reqs : ℕ
  pub conn_ress : ℕ
  pub contents : ℕ
  pub acks : ℕ
  pub subs : ℕ
  pub joins : ℕ
  pub queries : ℕ

unfoldable pub init_handlers : Streams → Handlrs → Handlrs
init_handlers s hs =
    add_handler data_msg s.contents true
      (add_handler conn_res s.conn_ress true (add_handler conn_req s.conn_reqs true hs))

unfoldable pub init_peer_store : Streams → Handlrs → Handlrs
init_peer_store s hs = add_handler status_ack s.acks true hs

unfoldable pub start : Streams → Handlrs → Handlrs
start s hs = add_handler group_join s.joins false (add_handler Domain.subscribe s.subs false hs)

unfoldable pub new_discoverer : Streams → Handlrs → Handlrs
new_discoverer s hs = add_handler query s.queries false hs

unfoldable pub new_prober : Config → Prober
new_prober c = record {
  label = c.name;
  inv_endpoint = c.inv_endpoint;
  exch_endpoint = c.inv_endpoint;
  grp_join_endpoint = c.inv_endpoint;
  ks = new_key_manager;
  peers = [];
  did_store = record { did_map = []; did_doc_map = [] };
}

-- A SUB socket of a listener before its loop: it is connected to the connector's endpoint and
-- subscribed to the four internal topics. What it did last comes first.
internal_socket : Text → Socket
internal_socket endpoint =
    subscribe topic_term
    ∷ subscribe topic_authenticate
    ∷ subscribe topic_subscribe
    ∷ subscribe topic_connect
    ∷ connect endpoint
    ∷ []

unfoldable pub new_agent : Outside → Config → Prober → Result Node
unfolding internal_socket
new_agent o c p = do
  _ ←
      wrap "initializing internal services of group agent failed"
        (wrap "initializing compressor failed" o.compactor)
  tr ←
      wrap "zmq transport init for group agent failed"
        (new_zmq_transport o.auth_start o.servr o.client c.name)
  ok (record {
    my_label = c.name;
    pub_endpoint = c.pub_endpoint;
    invs = [];
    prober = p;
    gs = [];
    subs = [];
    syncr = new_syncer o.sender_id;
    connected = [];
    sockets = record {
      state = internal_socket o.endpts.state;
      content = internal_socket o.endpts.content;
      auth = tr.auth;
    };
    published = [];
    replies = [];
  })

-- The group agent, which has the prober, and the handlers of the server.
pub record Started : Type 0 where
  pub node : Node
  pub handlrs : Handlrs

unfoldable pub init_container : Outside → Config → Streams → Result Started
init_container o c s = do
  node ← wrap "initializing pubsub group agent failed" (new_agent o c (new_prober c))
  ok (record { node = node; handlrs = start s (init_peer_store s (init_handlers s [])) })

-- `main`, up to the discoverer that `cli.Init` makes
unfoldable pub run_main : Outside → Args → Streams → Result Started
run_main o args s = do
  c ← set_configs o args
  agent ← init_container o c s
  ok (record agent { handlrs = new_discoverer s agent.handlrs })
