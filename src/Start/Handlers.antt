-- ===== src/Start/Handlers.antt =====
-- main.go: the state that the program starts in.
use didcomm_prober.Prelude.{
  ◌≡◌, ◌≢◌, refl, sym, ap, ◌∙◌, true, false, [], Result, ok, fail, >>=-eq-ok, wrap, wrap-eq-ok,
  ok-eq,
}
use didcomm_prober.Prelude.Int.{ℤ}
use didcomm_prober.Domain.{
  MsgType, conn_req, conn_res, data_msg, subscribe, query, group_join, group_status, group_msg,
  status_ack, terminate, undefined,
}
use didcomm_prober.ReqRep.Server.{
  Handler, Handlrs, handlr_by_typ, type_code, add_handler, store, load, same_key,
}
use didcomm_prober.PubSub.Transport.Connector.{new_zmq_transport}
use didcomm_prober.PubSub.Node.{Node}
use didcomm_prober.Start.{
  Args, Outside, Streams, Started, set_configs, init_handlers, init_peer_store, start,
  new_discoverer, new_prober, new_agent, init_container, run_main,
}

-- the channel that reads the messages of a type, and whether its sender gets a reply at once
abbrev pub handler_of : Streams → MsgType → Result Handler
handler_of s conn_req = ok (record { async = true; notifier = s.conn_reqs })
handler_of s conn_res = ok (record { async = true; notifier = s.conn_ress })
handler_of s data_msg = ok (record { async = true; notifier = s.contents })
handler_of s status_ack = ok (record { async = true; notifier = s.acks })
handler_of s subscribe = ok (record { async = false; notifier = s.subs })
handler_of s group_join = ok (record { async = false; notifier = s.joins })
handler_of s query = ok (record { async = false; notifier = s.queries })
handler_of s _ = fail "no handler found for message type"

all_handlers : Streams → Handlrs
all_handlers s = new_discoverer s (start s (init_peer_store s (init_handlers s [])))

handlr_by_typ-all_handlers :
    (s : Streams) (mt : MsgType)
    → ((n : ℤ) → mt ≢ undefined n)
    → handlr_by_typ (type_code mt) (all_handlers s) ≡ handler_of s mt
unfolding all_handlers handlr_by_typ type_code add_handler store load same_key new_discoverer start
    init_peer_store init_handlers
handlr_by_typ-all_handlers s conn_req known = refl
handlr_by_typ-all_handlers s conn_res known = refl
handlr_by_typ-all_handlers s data_msg known = refl
handlr_by_typ-all_handlers s subscribe known = refl
handlr_by_typ-all_handlers s query known = refl
handlr_by_typ-all_handlers s group_join known = refl
handlr_by_typ-all_handlers s group_status known = refl
handlr_by_typ-all_handlers s group_msg known = refl
handlr_by_typ-all_handlers s status_ack known = refl
handlr_by_typ-all_handlers s terminate known = refl
handlr_by_typ-all_handlers s (undefined n) known = absurd (known n refl)

-- A program that has started has no group, no peer and no subscriber, and its server hands each message
-- of a known type to the channel of the part that handles it: connection requests and responses, data
-- and status acknowledgements with an answer at once, subscriptions, join requests and queries with
-- the reply of their handler, and all others to none.
pub run_main-handlers :
    (o : Outside) (args : Args) (s : Streams) (q : Started)
    → run_main o args s ≡ ok q
    → (q.node.gs ≡ [])
      × (q.node.prober.peers ≡ [])
      × (q.node.subs ≡ [])
      × ((mt : MsgType)
          → ((n : ℤ) → mt ≢ undefined n)
          → handlr_by_typ (type_code mt) q.handlrs ≡ handler_of s mt)
unfolding run_main init_container new_agent new_prober all_handlers set_configs
run_main-handlers o args s q h =
    let (c, configured, h1) = >>=-eq-ok (set_configs o args) _ h in
    let (agent, contained, h2) = >>=-eq-ok (init_container o c s) _ h1 in
    let (node, made, h3) =
      >>=-eq-ok (wrap "initializing pubsub group agent failed" (new_agent o c (new_prober c))) _
        contained in
    let (u, compacts, h4) =
      >>=-eq-ok
        (wrap "initializing internal services of group agent failed"
          (wrap "initializing compressor failed" o.compactor))
        _ (wrap-eq-ok _ _ made) in
    let (tr, transports, h5) =
      >>=-eq-ok
        (wrap "zmq transport init for group agent failed"
          (new_zmq_transport o.auth_start o.servr o.client c.name))
        _ h4 in
    let same : node ≡ q.node =
      ap (λ (a : Started). a.node) (ok-eq h3) ∙ ap (λ (a : Started). a.node) (ok-eq h2) in
    let handled : all_handlers s ≡ q.handlrs =
      ap (λ (a : Started). new_discoverer s a.handlrs) (ok-eq h3)
      ∙ ap (λ (a : Started). a.handlrs) (ok-eq h2) in
    (
      sym (ap (λ (n : Node). n.gs) (ok-eq h5 ∙ same)),
      sym (ap (λ (n : Node). n.prober.peers) (ok-eq h5 ∙ same)),
      sym (ap (λ (n : Node). n.subs) (ok-eq h5 ∙ same)),
      λ mt known.
          ap (handlr_by_typ (type_code mt)) (sym handled) ∙ handlr_by_typ-all_handlers s mt known,
    )
