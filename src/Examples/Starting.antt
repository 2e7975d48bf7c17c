-- ===== src/Examples/Starting.antt =====
-- A start of the program.
use didcomm_prober.PubSub.Transport.Connector.{new_zmq_transport}
use didcomm_prober.Prelude.{◌≡◌, ◌≢◌, refl, str, ◌∷◌, [], Result, ok, err, panic}
use didcomm_prober.Prelude.Int.{ℤ, pos}
use didcomm_prober.Domain.{MsgType, undefined}
use didcomm_prober.ReqRep.Server.{handlr_by_typ, type_code}
use didcomm_prober.PubSub.Transport.Auth.{starts, authenticator, generate_certs}
use didcomm_prober.Start.{
  Args, Outside, Streams, Started, run_main, set_configs, init_container, new_agent,
}
use didcomm_prober.Start.Handlers.{handler_of, run_main-handlers}
use didcomm_prober.Examples.{alice}
use didcomm_prober.Examples.Nodes.{alice_node}

abbrev outside : Outside
outside = record {
  itoa = λ i. str "7";
  host_name = ok (str "host");
  lookup_ip = λ hn. ok (str "127.0.0.1" ∷ []);
  sender_id = pos 4;
  compactor = ok tt;
  endpts = record { state = str "inproc://state"; content = str "inproc://data" };
  auth_start = starts;
  servr = ok (str "sp", str "ss");
  client = ok (str "cp", str "cs");
}

abbrev args : Args
args = record { name = alice; port = pos 7; pub_port = pos 7 }

abbrev streams : Streams
streams = record {
  conn_reqs = 1;
  conn_ress = 2;
  contents = 3;
  acks = 4;
  subs = 5;
  joins = 6;
  queries = 7;
}

abbrev with_default : Started → Result Started → Started
with_default other (ok q) = q
with_default other (err e) = other
with_default other panic = other

abbrev begun : Started
begun = with_default (record { node = alice_node []; handlrs = [] }) (run_main outside args streams)

run_main-handlers_example :
    (begun.node.gs ≡ [])
    × (begun.node.prober.peers ≡ [])
    × (begun.node.subs ≡ [])
    × ((mt : MsgType)
        → ((n : ℤ) → mt ≢ undefined n)
        → handlr_by_typ (type_code mt) begun.handlrs ≡ handler_of streams mt)
unfolding run_main set_configs init_container new_agent new_zmq_transport authenticator
    generate_certs
run_main-handlers_example = run_main-handlers outside args streams begun refl
