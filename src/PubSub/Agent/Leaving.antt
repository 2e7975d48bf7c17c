-- ===== src/PubSub/Agent/Leaving.antt =====
-- pubsub/agent.go: what Leave makes of a node.
use didcomm_prober.Prelude.{
  ◌≡◌, refl, ap, subst, sym, ◌⊎◌, inl, inr, ◌≢◌, Bool, Text, ◌==◌, lookup, lookup-remove, eq_refl,
  false, true, List, ◌∷◌, arith, Result, ok, fail, Result-cases,
}
use didcomm_prober.Domain.{Member}
use didcomm_prober.PubSub.Stores.Group
use didcomm_prober.PubSub.Stores.Group.{joined, membrs}
use didcomm_prober.PubSub.Stores.Subscriber
use didcomm_prober.PubSub.Stores.Subscriber.{query_by_topic}
use didcomm_prober.PubSub.Transport.Topics.{state_topic}
use didcomm_prober.PubSub.Transport.Requests.{Sockets}
use didcomm_prober.PubSub.Node.{Node, GroupEnv, subscribe_node, send_publish, sent_publish}
use didcomm_prober.PubSub.Processor.{subscribe_to}
use didcomm_prober.PubSub.Agent.{
  compress_status, notify_all, leave, no_member, is_publisher, some_members,
}
use didcomm_prober.PubSub.Agent.Keeping.{compress_status-Keeps}

-- The two stores have no such topic any more and hold every other one as before; the clocks are the same; one
-- message was published, the inactive status on the state topic.
pub record HasLeft (e : GroupEnv) (topic : Text) (n left : Node) : Type 0 where
  pub not_joined : joined topic left.gs ≡ false
  pub not_served : query_by_topic topic left.subs ≡ fail "topic is not registered"
  pub others : (t : Text) → (topic == t) ≡ false → lookup t left.gs ≡ lookup t n.gs
  pub others_served : (t : Text) → (topic == t) ≡ false → lookup t left.subs ≡ lookup t n.subs
  pub clocks : left.syncr ≡ n.syncr
  pub content : Text
  pub sockets : Sockets
  pub status :
      (compress_status e topic false
        (is_publisher n.my_label (membrs e.range_members topic n.gs))
        (record n { sockets = sockets })).0
      ≡ ok content
  pub sent : left.published ≡ (state_topic topic, content) ∷ n.published

module _ (e : GroupEnv) (topic : Text) where
  compress_status_state :
      (active publishes : Bool) (n : Node) → (compress_status e topic active publishes n).1 ≡ n
  compress_status_state active publishes n =
      (compress_status-Keeps e {P = λ k. k ≡ n} topic active publishes).always n refl

  -- A notice that reports no error published its status; another one changed nothing but what was
  -- published.
  notify_all_outcome :
      (active publishes : Bool) (n : Node)
      → ((content : Text) × ((compress_status e topic active publishes n).0 ≡ ok content)
          × (notify_all e topic active publishes n
              ≡ (ok tt, record n { published = (state_topic topic, content) ∷ n.published })))
        ⊎ (((notify_all e topic active publishes n).1 ≡ n)
            × ((notify_all e topic active publishes n).0 ≢ ok tt))
  unfolding notify_all send_publish sent_publish
  notify_all_outcome active publishes n =
      let state = compress_status_state active publishes n in
      elim (Result-cases (compress_status e topic active publishes n).0) [
        | inl (content, c) ↦ elim (Result-cases (e.publish (state_topic topic) content)) [
          | inl (u, p) ↦ inl (content, c, rw (c, state, p) refl)
          | inr (inl (w, p)) ↦ inr (rw (c, state, p) refl, λ h. ground (arith, h, c, state, p))
          | inr (inr p) ↦ inr (rw (c, state, p) refl, λ h. ground (arith, h, c, state, p))
        ]
        | inr (inl (w, c)) ↦ inr (rw (c, state) refl, λ h. ground (arith, h, c))
        | inr (inr c) ↦ inr (rw (c, state) refl, λ h. ground (arith, h, c))
      ]

  -- the request to unsubscribe from everything
  unsubscribed : Node → Result (Unit {0}) × Node
  unsubscribed n = subscribe_to e false true true true topic n.my_label no_member n

  unsubscribed_state : (n : Node) → (k : Sockets) × ((unsubscribed n).1 ≡ record n { sockets = k })
  unfolding unsubscribed subscribe_to subscribe_node
  unsubscribed_state n = ((unsubscribed n).1.sockets, refl)

  abbrev dropped : Node → Text → Sockets → Node
  dropped n content k = record n {
    sockets = k;
    published = (state_topic topic, content) ∷ n.published;
    subs = Subscriber.delete_topic topic n.subs;
    gs = Group.delete_topic topic n.gs;
  }

  dropped-HasLeft :
      (n : Node) (content : Text) (k : Sockets)
      → (compress_status e topic false
          (is_publisher n.my_label (membrs e.range_members topic n.gs))
          (record n { sockets = k })).0
        ≡ ok content
      → HasLeft e topic n (dropped n content k)
  unfolding joined query_by_topic Group.delete_topic Subscriber.delete_topic
  dropped-HasLeft n content k c = record {
    not_joined = ground (arith, lookup-remove topic topic n.gs, eq_refl topic);
    not_served = ground (arith, lookup-remove topic topic n.subs, eq_refl topic);
    others = λ t other. ground (arith, lookup-remove topic t n.gs, other);
    others_served = λ t other. ground (arith, lookup-remove topic t n.subs, other);
    clocks = refl;
    content = content;
    sockets = k;
    status = c;
    sent = refl;
  }

  -- A Leave that reports no error has sent one message, the status of this node as an inactive member,
  -- and removed the topic, and no other, from both stores; the clock of the topic is left as it is. One
  -- that does not report success has left both stores as they were.
  pub leave_lem :
      (n : Node)
      → (((leave e topic n).0 ≡ ok tt) × HasLeft e topic n (leave e topic n).1)
        ⊎ (((leave e topic n).0 ≢ ok tt)
            × ((leave e topic n).1.gs ≡ n.gs)
            × ((leave e topic n).1.subs ≡ n.subs))
  unfolding leave unsubscribed
  leave_lem n =
      let (k, at_k) = unsubscribed_state n in
      let mems : List Member = membrs e.range_members topic n.gs in
      elim (Result-cases (unsubscribed n).0) [
        | inl (u, r) ↦ elim (Result-cases (some_members mems)) [
          | inl (v, m) ↦
              elim (notify_all_outcome false (is_publisher n.my_label mems)
                (record n { sockets = k })) [
                  | inl (content, c, sent) ↦
                      let after : leave e topic n ≡ (ok tt, dropped n content k) =
                        rw (r, at_k, m, sent) refl in
                      inl (
                        ap (λ x. x.0) after,
                        subst (HasLeft e topic n) (ap (λ x. x.1) (sym after))
                            (dropped-HasLeft n content k c),
                      )
                  | inr (same, why) ↦
                      let notice : Result (Unit {0}) =
                        (notify_all e topic false (is_publisher n.my_label mems)
                          (record n { sockets = k })).0 in
                      elim (Result-cases notice) [
                        | inl (x, q) ↦ absurd (why q)
                        | inr (inl (w, q)) ↦ inr (
                          λ h. ground (arith, h, r, at_k, m, q),
                          rw (r, at_k, m, q, same) refl,
                          rw (r, at_k, m, q, same) refl,
                        )
                        | inr (inr q) ↦ inr (
                          λ h. ground (arith, h, r, at_k, m, q),
                          rw (r, at_k, m, q, same) refl,
                          rw (r, at_k, m, q, same) refl,
                        )
                      ]
                ]
          | inr (inl (w, m)) ↦
              inr (λ h. ground (arith, h, r, at_k, m), rw (r, at_k, m) refl, rw (r, at_k, m) refl)
          | inr (inr m) ↦
              inr (λ h. ground (arith, h, r, at_k, m), rw (r, at_k, m) refl, rw (r, at_k, m) refl)
        ]
        | inr (inl (w, r)) ↦ inr (λ h. ground (arith, h, r), rw (r, at_k) refl, rw (r, at_k) refl)
        | inr (inr r) ↦ inr (λ h. ground (arith, h, r), rw (r, at_k) refl, rw (r, at_k) refl)
      ]
