-- ===== src/Examples/Prober.antt =====
-- Runs of the prober and of feature discovery.
use didcomm_prober.Prelude.{All, List, str, false, none, [], ◌∷◌, arith}
use didcomm_prober.Domain.{Peer, servc_message}
use didcomm_prober.Prober.Agent.{Prober}
use didcomm_prober.Domain.{Feature}
use didcomm_prober.DidComm.Discovery.{process_query}
use didcomm_prober.DidComm.Discovery.Disclosed.{Asked, process_query-Asked}
use didcomm_prober.Examples.{alice, bob}

abbrev connected : Peer
connected = record {
  active = false;
  did = str "did";
  exchange_th_id = str "th";
  services = (record { id = []; typ = servc_message; endpoint = []; pub_key = [] }) ∷ [];
}

abbrev prober : Prober
prober = record {
  label = alice;
  inv_endpoint = [];
  exch_endpoint = [];
  grp_join_endpoint = [];
  ks = record { inv_pub_key = none; inv_prv_key = none; key_store = [] };
  peers = (bob, connected) ∷ [];
  did_store = record { did_map = []; did_doc_map = [] };
}

abbrev two_features : List Feature
two_features =
    (record { id = str "https://didcomm.org/a"; roles = [] })
    ∷ (record { id = str "https://didcomm.org/b"; roles = [] })
    ∷ []

process_query-Asked_example :
    All
      (Asked (str "https://didcomm.org/*"))
      (process_query two_features (str "https://didcomm.org/*"))
process_query-Asked_example =
    process_query-Asked two_features (str "https://didcomm.org/*") (λ h. ground arith)
      (λ h. ground arith)
