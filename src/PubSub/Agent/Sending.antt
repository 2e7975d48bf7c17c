-- ===== src/PubSub/Agent/Sending.antt =====
-- pubsub/agent.go: what Send publishes.
use mathlib.Core.List.{reverse, reverse-cons, append_assoc, append-nil}
use didcomm_prober.Prelude.{
  ℕ, ◌≡◌, refl, ap, sym, ◌∙◌, inl, inr, Text, Option, List, [], ◌∷◌, ◌++◌, map, length, arith, ok,
  Result-cases, Option-cases, Bool-cases, some, true,
}
use didcomm_prober.Domain.{Member}
use didcomm_prober.PubSub.Stores.Group.{membr}
use didcomm_prober.PubSub.Syncer
use didcomm_prober.PubSub.Stores.Subscriber.{SubKey, query_by_topic}
use didcomm_prober.PubSub.Transport.Topics.{data_topic}
use didcomm_prober.PubSub.Node.{Node, GroupEnv, pack, send_publish, sent_publish}
use didcomm_prober.PubSub.Agent.{publish_one, publish_each, send, own_publisher}

-- Since `n`, and up to `k`, one message was published for each subscriber, in their order, on the data
-- topic of the subscriber; these are the sizes.
pub record HasSent (topic : Text) (subs : SubKey) (n k : Node) (sizes : List ℕ) : Type 0 where
  pub sent : List (Text × Text)
  pub since : reverse k.published ≡ reverse n.published ++ sent
  pub topics : map (λ s. data_topic n.gs topic n.my_label s.0) subs ≡ map (λ p. ok p.0) sent
  pub lengths : map (λ p. length p.1) sent ≡ sizes

module _ (e : GroupEnv) (topic : Text) where
  publish_one_ok :
      (msg sub : Text) (key : Option Text) (n : Node) (size : ℕ)
      → (publish_one e topic msg sub key n).0 ≡ ok size
      → (to : Text) × (content : Text) × (data_topic n.gs topic n.my_label sub ≡ ok to)
        × (length content ≡ size)
        × ((publish_one e topic msg sub key n).1
            ≡ record n { published = (to, content) ∷ n.published })
  unfolding publish_one send_publish sent_publish
  publish_one_ok msg sub key n size done = elim (Result-cases (pack e sub key msg n)) [
    | inr (inl (w, p)) ↦ absurd (ground (arith, done, p))
    | inr (inr p) ↦ absurd (ground (arith, done, p))
    | inl (content, p) ↦ elim (Result-cases (data_topic n.gs topic n.my_label sub)) [
      | inr (inl (w, t)) ↦ absurd (ground (arith, done, p, t))
      | inr (inr t) ↦ absurd (ground (arith, done, p, t))
      | inl (to, t) ↦ elim (Result-cases (e.publish to content)) [
        | inr (inl (w, s)) ↦ absurd (ground (arith, done, p, t, s))
        | inr (inr s) ↦ absurd (ground (arith, done, p, t, s))
        | inl (u, s) ↦ (to, content, t, ground (arith, done, p, t, s), rw (p, t, s) refl)
      ]
    ]
  ]

  publish_each_lem :
      (msg : Text) (subs : SubKey) (n : Node) (sizes : List ℕ)
      → (publish_each e topic msg subs n).0 ≡ ok sizes
      → HasSent topic subs n (publish_each e topic msg subs n).1 sizes
  unfolding publish_each
  publish_each_lem msg [] n sizes done = record {
    sent = [];
    since = sym (append-nil (reverse n.published));
    topics = refl;
    lengths = ground (arith, done);
  }
  publish_each_lem msg ((sub, key) ∷ subs) n sizes done =
      elim (Result-cases (publish_one e topic msg sub key n).0) [
        | inr (inl (w, o)) ↦ absurd (ground (arith, done, o))
        | inr (inr o) ↦ absurd (ground (arith, done, o))
        | inl (size, o) ↦
            let (to, content, t, l, at_k) = publish_one_ok msg sub key n size o in
            let k : Node = record n { published = (to, content) ∷ n.published } in
            elim (Result-cases (publish_each e topic msg subs k).0) [
              | inr (inl (w, r)) ↦ absurd (ground (arith, done, o, at_k, r))
              | inr (inr r) ↦ absurd (ground (arith, done, o, at_k, r))
              | inl (rest, r) ↦
                  let h = publish_each_lem msg subs k rest r in
                  let all : size ∷ rest ≡ sizes = ground (arith, done, o, at_k, r) in
                  rw (o, at_k, r)
                    (record {
                      sent = (to, content) ∷ h.sent;
                      since =
                          h.since
                          ∙ ap (λ r. r ++ h.sent) (reverse-cons (to, content) n.published)
                          ∙ append_assoc (reverse n.published) ((to, content) ∷ []) h.sent;
                      topics = cc (t, h.topics);
                      lengths = cc (l, h.lengths, all);
                    })
            ]
      ]

module _ (e : GroupEnv) (topic msg : Text) where
  -- A Send that reports no error was asked of a member that is a publisher, of a topic that has a table
  -- of subscribers; it has published one message for each of them, in the order of the range, on the
  -- data topic of the subscriber, and it answers the sizes of these messages.
  pub send_lem :
      (n : Node) (sizes : List ℕ)
      → (send e topic msg n).0 ≡ ok sizes
      → (own : Member) × (subs : SubKey) × (membr e.range_members topic n.my_label n.gs ≡ some own)
        × (own.publisher ≡ true)
        × (query_by_topic topic n.subs ≡ ok subs)
        × HasSent topic (e.range_subs subs) n (send e topic msg n).1 sizes
  unfolding send own_publisher
  send_lem n sizes done = elim (Option-cases (membr e.range_members topic n.my_label n.gs)) [
    | inl m ↦ absurd (ground (arith, done, m))
    | inr (own, m) ↦ elim (Bool-cases own.publisher) [
      | inr reader ↦ absurd (ground (arith, done, m, reader))
      | inl yes_own ↦ elim (Result-cases (query_by_topic topic n.subs)) [
        | inr (inl (w, q)) ↦ absurd (ground (arith, done, m, yes_own, q))
        | inr (inr q) ↦ absurd (ground (arith, done, m, yes_own, q))
        | inl (subs, q) ↦
            let (r, s) = Syncer.message e.group_msgs topic msg e.now n.syncr in
            elim (Result-cases r) [
              | inr (inl (w, c)) ↦ absurd (ground (arith, done, m, yes_own, q, c))
              | inr (inr c) ↦ absurd (ground (arith, done, m, yes_own, q, c))
              | inl (synced, c) ↦
                  let n_synced : Node = record n { syncr = s } in
                  let h =
                    publish_each_lem e topic synced (e.range_subs subs) n_synced sizes
                      (ground (arith, done, m, yes_own, q, c)) in
                  (
                    own,
                    subs,
                    m,
                    yes_own,
                    q,
                    rw (m, yes_own, q, c)
                        (record {
                          sent = h.sent;
                          since = h.since;
                          topics = h.topics;
                          lengths = h.lengths;
                        }),
                  )
            ]
      ]
    ]
  ]
