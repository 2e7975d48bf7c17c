-- ===== src/Examples/Nodes.antt =====
-- A node of a group, and what it calls.
use didcomm_prober.Prelude.{
  ℕ, zero, suc, List, ◌≡◌, refl, ap, sym, ◌∙◌, lookup, ok-eq, Text, str, Assoc, false, true, none,
  some, [], ◌∷◌, ok, fail,
}
use didcomm_prober.Prelude.Int.{pos}
use didcomm_prober.Domain.{GroupParams, Service, servc_group_join, single_queue_mode}
use didcomm_prober.Domain.Messages.{Json}
use didcomm_prober.Domain.GroupMessages.{Status, member_status_v1}
use didcomm_prober.Crypto.Keys.{Keys}
use didcomm_prober.Prober.Agent.{Prober, Env, Fresh}
use didcomm_prober.PubSub.Stores.Group.{Group, Store}
use didcomm_prober.PubSub.Node.{Node, GroupEnv}
use didcomm_prober.Examples.{in_order, alice, bob, chess, member, digest}
use didcomm_prober.Examples.Packing.{libs, random}

-- a codec that reads and writes nothing
abbrev pub no_json : {A : Type 0} → Json A
no_json = record { marshal = λ a. fail "no json"; unmarshal = λ t. fail "no json" }

abbrev env : Env
env = record {
  libs = libs;
  hostname = str "tcp";
  url = record { url_encode = λ t. t; url_decode = λ t. ok t };
  docs = no_json;
  invs = record { marshal = λ i. ok i.id; unmarshal = λ t. fail "no json" };
  reqs = no_json;
  ress = no_json;
  sha256 = λ t. t;
  send = λ typ content endpoint. fail "no peer";
}

abbrev pub alice_keys : Keys
alice_keys = record { public = alice; private = alice }

abbrev pub fresh : Fresh
fresh = record {
  id = str "1";
  id_2 = str "2";
  id_3 = str "3";
  id_4 = str "4";
  pair = ok alice_keys;
  random = random;
}

-- A field is written with every byte one up and a zero at its end.
abbrev write_field : Text → Text → Text
write_field [] rest = 0 ∷ rest
write_field (b ∷ t) rest = suc b ∷ write_field t rest

abbrev write_msgs : Assoc Text → Text
write_msgs [] = []
write_msgs ((thread, content) ∷ ms) = write_field thread (write_field content (write_msgs ms))

abbrev put_first : ℕ → List Text → List Text
put_first b [] = (b ∷ []) ∷ []
put_first b (f ∷ fs) = (b ∷ f) ∷ fs

abbrev read_fields : Text → List Text
read_fields [] = []
read_fields (zero ∷ t) = [] ∷ read_fields t
read_fields (suc b ∷ t) = put_first b (read_fields t)

abbrev pairs : List Text → Assoc Text
pairs (thread ∷ content ∷ fs) = (thread, content) ∷ pairs fs
pairs _ = []

abbrev pub status_of : Assoc Text → Status
status_of msgs = record { id = str "id"; typ = member_status_v1; topic = chess; auth_msgs = msgs }

read-write_field : (f t : Text) → read_fields (write_field f t) ≡ f ∷ read_fields t
read-write_field [] t = refl
read-write_field (b ∷ f) t = ap (put_first b) (read-write_field f t)

read-write_msgs : (ms : Assoc Text) → pairs (read_fields (write_msgs ms)) ≡ ms
read-write_msgs [] = refl
read-write_msgs ((thread, content) ∷ ms) =
    ap pairs (read-write_field thread (write_field content (write_msgs ms)))
    ∙ ap (λ fs. pairs (thread ∷ fs)) (read-write_field content (write_msgs ms))
    ∙ ap (λ r. (thread, content) ∷ r) (read-write_msgs ms)

abbrev pub group_env : GroupEnv
group_env = record {
  agent = env;
  digest = digest;
  subscribes = no_json;
  sub_results = no_json;
  statuses = record {
    marshal = λ s. ok (write_msgs s.auth_msgs);
    unmarshal = λ t. ok (status_of (pairs (read_fields t)));
  };
  join_requests = no_json;
  join_results = no_json;
  members = record { marshal = λ m. ok m.label; unmarshal = λ t. ok (member t) };
  group_msgs = no_json;
  compress = λ t. t;
  decompress = λ t. ok t;
  state_answers = λ s c. ok tt;
  content_answers = λ s c. ok tt;
  connects = λ t. fail "no json";
  sub_requests = λ t. fail "no json";
  auths = λ t. fail "no json";
  publish = λ topic content. ok tt;
  ask = λ typ content endpoint. fail "no peer";
  range_members = in_order;
  range_keys = in_order;
  range_peers = in_order;
  range_texts = in_order;
  range_subs = in_order;
  range_sets = in_order;
  draw = λ label. random;
  uuid = str "id";
  fresh = λ label. fresh;
  looks = λ p. p ∷ [];
  now = pos 1;
  oob_of = λ inv. ok none;
  tries = 1;
  ids = record { state = str "s"; content = str "c" };
  others = λ w n. n;
}

pub statuses_read :
    (msgs : Assoc Text) (t : Text)
    → group_env.statuses.marshal (status_of msgs) ≡ ok t
    → (s : Status) × (group_env.statuses.unmarshal t ≡ ok s)
      × (s.topic ≡ chess)
      × ((k : Text) → lookup k s.auth_msgs ≡ lookup k msgs)
statuses_read msgs t h =
    let written : write_msgs msgs ≡ t = ok-eq h in
    (
      status_of (pairs (read_fields t)),
      refl,
      refl,
      λ k.
          ap (λ u. lookup k (pairs (read_fields u))) (sym written)
          ∙ ap (lookup k) (read-write_msgs msgs),
    )

abbrev service : Service
service = record { id = str "1"; typ = servc_group_join; endpoint = str "tcp"; pub_key = bob }

abbrev pub alice_prober : Prober
alice_prober = record {
  label = alice;
  inv_endpoint = str "tcp";
  exch_endpoint = str "tcp";
  grp_join_endpoint = str "tcp";
  ks = record { inv_pub_key = none; inv_prv_key = none; key_store = (bob, alice_keys) ∷ [] };
  peers =
      (bob, record { active = false; did = []; exchange_th_id = str "7"; services = service ∷ [] })
      ∷ [];
  did_store = record { did_map = []; did_doc_map = [] };
}

abbrev pub single : GroupParams
single = record { order_enabled = true; join_consistent = true; mode = single_queue_mode }

abbrev pub chess_group : Group
chess_group = record {
  topic = [];
  checksum = [];
  members = some ((alice, member alice) ∷ (bob, member bob) ∷ []);
  params = some single;
  last_updated = pos 0;
}

-- alice's node, with the groups that are given
abbrev pub alice_node : Store → Node
alice_node gs = record {
  my_label = alice;
  pub_endpoint = str "tcp";
  invs = [];
  prober = alice_prober;
  gs = gs;
  subs = [];
  syncr = record { id = pos 1; ts_map = [] };
  connected = [];
  sockets = record {
    state = [];
    content = [];
    auth = record {
      id = str "id";
      servr_pub = str "a";
      servr_prvt = str "b";
      client_pub = str "c";
      client_prvt = str "d";
      keys = [];
      allowed = [];
    };
  };
  published = [];
  replies = [];
}
