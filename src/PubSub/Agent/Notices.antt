-- ===== src/PubSub/Agent/Notices.antt =====
-- pubsub/agent.go and pubsub/processor.go: a status message carries one message for each other member
-- of the group, and its receivers read it.
use didcomm_prober.Prelude.{
  ◌≡◌, refl, ap, sym, ◌∙◌, ◌⊎◌, inl, inr, Text, ◌==◌, eq_iff, Assoc, All, lookup, insert,
  lookup-insert, Bool, List, [], ◌∷◌, some, arith, ok, Result-cases, Bool-cases, subst,
}
use Prim.Native.String.{String}
use didcomm_prober.Domain.{Member, Peer, Service, servc_group_join}
use didcomm_prober.Prober.Agent.Services.{peer, service}
use didcomm_prober.PubSub.Node.{Node, GroupEnv, pack}
use didcomm_prober.Domain.GroupMessages.{Status, member_status_v1}
use didcomm_prober.PubSub.Stores.Group.{membrs}
use didcomm_prober.PubSub.Processor.Statuses.{extract_status}
use didcomm_prober.PubSub.Agent.{auth_msg, auth_msgs, compress_status, own_member, inv_of}

-- No two peers of the node share the thread of their connections.
abbrev pub DistinctThreads : Node → Type 0
DistinctThreads n =
    (k l : Text) (p q : Peer)
    → peer k n.prober ≡ ok p
    → peer l n.prober ≡ ok q
    → p.exchange_th_id ≡ q.exchange_th_id
    → k ≡ l

abbrev why : String
why = "packing message failed"

module _ (e : GroupEnv) (byts : Text) (n : Node) where
  -- The messages hold what the loop makes for the member.
  record IsPut (m : Member) (msgs : Assoc Text) : Type 0 where
    pub thread : Text
    pub content : Text
    pub packed : auth_msg e why byts m n ≡ ok (thread, content)
    pub found : lookup thread msgs ≡ some content

  -- What the loop makes for a member: the thread of the peer under its label, and the node as a
  -- member, packed for the key of the peer's service for group messages.
  record IsMade (m : Member) (thread content : Text) : Type 0 where
    pub to : Peer
    pub known : peer m.label n.prober ≡ ok to
    pub served_by : Service
    pub served : service servc_group_join m.label n.prober ≡ ok served_by
    pub packed : pack e m.label (some served_by.pub_key) byts n ≡ ok content
    pub of_thread : to.exchange_th_id ≡ thread

  auth_msg-IsMade :
      (m : Member) (thread content : Text)
      → auth_msg e why byts m n ≡ ok (thread, content)
      → IsMade m thread content
  unfolding auth_msg
  auth_msg-IsMade m thread content h = elim (Result-cases (peer m.label n.prober)) [
    | inl (p, known) ↦ elim (Result-cases (service servc_group_join m.label n.prober)) [
      | inl (s, served) ↦ elim (Result-cases (pack e m.label (some s.pub_key) byts n)) [
        | inl (c, q) ↦
            let same : c ≡ content = ground (arith, h, known, served, q) in
            record {
              to = p;
              known = known;
              served_by = s;
              served = served;
              packed = q ∙ ap ok same;
              of_thread = ground (arith, h, known, served, q);
            }
        | inr (inl (w, q)) ↦ absurd (ground (arith, h, known, served, q))
        | inr (inr q) ↦ absurd (ground (arith, h, known, served, q))
      ]
      | inr (inl (w, served)) ↦ absurd (ground (arith, h, known, served))
      | inr (inr served) ↦ absurd (ground (arith, h, known, served))
    ]
    | inr (inl (w, known)) ↦ absurd (ground (arith, h, known))
    | inr (inr known) ↦ absurd (ground (arith, h, known))
  ]

  -- It depends on no more of a member than its label.
  auth_msg_label :
      (k m : Member) → k.label ≡ m.label → auth_msg e why byts k n ≡ auth_msg e why byts m n
  unfolding auth_msg
  auth_msg_label k m same = rw same refl

  insert-IsPut :
      (k m : Member) (thread content : Text) (msgs : Assoc Text)
      → DistinctThreads n
      → auth_msg e why byts k n ≡ ok (thread, content)
      → IsPut m msgs
      → IsPut m (insert thread content msgs)
  insert-IsPut k m thread content msgs distinct h f = record {
    thread = f.thread;
    content = f.content;
    packed = f.packed;
    found =
        let put = lookup-insert thread f.thread content msgs in
        elim (Bool-cases (thread == f.thread)) [
          | inr other ↦ ground (arith, f.found, put, other)
          | inl same ↦
              let a = auth_msg-IsMade k thread content h in
              let b = auth_msg-IsMade m f.thread f.content f.packed in
              let threads : thread ≡ f.thread = ground (arith, eq_iff thread f.thread, same) in
              let labels =
                distinct k.label m.label a.to b.to a.known b.known
                  (a.of_thread ∙ threads ∙ sym b.of_thread) in
              let both : ok (thread, content) ≡ ok (f.thread, f.content) =
                sym h ∙ auth_msg_label k m labels ∙ f.packed in
              let contents : content ≡ f.content = ground (arith, both) in
              ground (arith, put, same, contents)
        ];
  }

  auth_msgs-IsPut :
      (m : Member) (ms : List Member) (acc msgs : Assoc Text)
      → DistinctThreads n
      → (auth_msgs e byts ms acc n).0 ≡ ok msgs
      → IsPut m acc
      → IsPut m msgs
  unfolding auth_msgs
  auth_msgs-IsPut m [] acc msgs distinct made f =
      let same : acc ≡ msgs = ground (arith, made) in subst (IsPut m) same f
  auth_msgs-IsPut m (k ∷ ms) acc msgs distinct made f = elim (Bool-cases (k.label == n.my_label)) [
    | inl own ↦ auth_msgs-IsPut m ms acc msgs distinct (ground (arith, made, own)) f
    | inr other ↦ elim (Result-cases (auth_msg e why byts k n)) [
      | inl ((thread, content), h) ↦
          auth_msgs-IsPut m ms (insert thread content acc) msgs distinct
            (ground (arith, made, other, h)) (insert-IsPut k m thread content acc distinct h f)
      | inr (inl (w, h)) ↦ absurd (ground (arith, made, other, h))
      | inr (inr h) ↦ absurd (ground (arith, made, other, h))
    ]
  ]

  auth_msgs-All :
      (ms : List Member) (acc msgs : Assoc Text)
      → DistinctThreads n
      → (auth_msgs e byts ms acc n).0 ≡ ok msgs
      → All (λ m. (m.label ≡ n.my_label) ⊎ IsPut m msgs) ms
  unfolding auth_msgs
  auth_msgs-All [] acc msgs distinct made = tt
  auth_msgs-All (m ∷ ms) acc msgs distinct made = elim (Bool-cases (m.label == n.my_label)) [
    | inl own ↦ (
      inl (ground (arith, eq_iff m.label n.my_label, own)),
      auth_msgs-All ms acc msgs distinct (ground (arith, made, own)),
    )
    | inr other ↦ elim (Result-cases (auth_msg e why byts m n)) [
      | inl ((thread, content), h) ↦
          let rest : (auth_msgs e byts ms (insert thread content acc) n).0 ≡ ok msgs =
            ground (arith, made, other, h) in
          let here : IsPut m (insert thread content acc) = record {
            thread = thread;
            content = content;
            packed = h;
            found = ground (arith, lookup-insert thread thread content acc, eq_iff thread thread);
          } in
          (
            inr (auth_msgs-IsPut m ms (insert thread content acc) msgs distinct rest here),
            auth_msgs-All ms (insert thread content acc) msgs distinct rest,
          )
      | inr (inl (w, h)) ↦ absurd (ground (arith, made, other, h))
      | inr (inr h) ↦ absurd (ground (arith, made, other, h))
    ]
  ]

  -- A status holds, under the thread of the connection to the member, what is packed for it: `byts`
  -- for the key of its service for group messages.
  pub record IsFiled (m : Member) (msgs : Assoc Text) : Type 0 where
    pub to : Peer
    pub known : peer m.label n.prober ≡ ok to
    pub served_by : Service
    pub served : service servc_group_join m.label n.prober ≡ ok served_by
    pub content : Text
    pub packed : pack e m.label (some served_by.pub_key) byts n ≡ ok content
    pub found : lookup to.exchange_th_id msgs ≡ some content

  put-IsFiled :
      (m : Member) (msgs read : Assoc Text)
      → ((k : Text) → lookup k read ≡ lookup k msgs)
      → IsPut m msgs
      → IsFiled m read
  put-IsFiled m msgs read same f =
      let a = auth_msg-IsMade m f.thread f.content f.packed in
      record {
        to = a.to;
        known = a.known;
        served_by = a.served_by;
        served = a.served;
        content = f.content;
        packed = a.packed;
        found = ap (λ t. lookup t read) a.of_thread ∙ same f.thread ∙ f.found;
      }

  All-IsFiled :
      (ms : List Member) (msgs read : Assoc Text)
      → ((k : Text) → lookup k read ≡ lookup k msgs)
      → All (λ m. (m.label ≡ n.my_label) ⊎ IsPut m msgs) ms
      → All (λ m. (m.label ≡ n.my_label) ⊎ IsFiled m read) ms
  All-IsFiled [] msgs read same h = tt
  All-IsFiled (m ∷ ms) msgs read same (inl own, h) = (inl own, All-IsFiled ms msgs read same h)
  All-IsFiled (m ∷ ms) msgs read same (inr f, h) =
      (inr (put-IsFiled m msgs read same f), All-IsFiled ms msgs read same h)

module _ (e : GroupEnv) (topic : Text) (active publishes : Bool) (n : Node) where
  abbrev pub status_with : Assoc Text → Status
  status_with msgs = record { id = e.uuid; typ = member_status_v1; topic = topic; auth_msgs = msgs }

  -- If no two peers of a node share a thread, compression is undone, and a status that is marshalled
  -- is read back with its topic and the same message under every thread, then the status message that
  -- `compressStatus` makes is read by `extractStatus` as one for its topic, which holds for each other
  -- member of the group, under the thread of the connection to that member, the node as a member,
  -- packed for the key of that member's service for group messages.
  pub extract-compress_status :
      (content : Text)
      → DistinctThreads n
      → ((msgs : Assoc Text) (t : Text)
          → e.statuses.marshal (status_with msgs) ≡ ok t
          → (s : Status) × (e.statuses.unmarshal t ≡ ok s)
            × (s.topic ≡ topic)
            × ((k : Text) → lookup k s.auth_msgs ≡ lookup k msgs))
      → ((t : Text) → e.decompress (e.compress t) ≡ ok t)
      → (compress_status e topic active publishes n).0 ≡ ok content
      → (s : Status) × (byts : Text) × (extract_status e content ≡ ok s)
        × (s.topic ≡ topic)
        × (e.members.marshal (own_member active publishes (inv_of topic n) n) ≡ ok byts)
        × All
            (λ m. (m.label ≡ n.my_label) ⊎ IsFiled e byts n m s.auth_msgs)
            (membrs e.range_members topic n.gs)
  unfolding compress_status extract_status
  extract-compress_status content distinct reads unpacks made =
      let own : Member = own_member active publishes (inv_of topic n) n in
      let mems : List Member = membrs e.range_members topic n.gs in
      elim (Result-cases (e.members.marshal own)) [
        | inr (inl (w, mb)) ↦ absurd (ground (arith, made, mb))
        | inr (inr mb) ↦ absurd (ground (arith, made, mb))
        | inl (byts, mb) ↦ elim (Result-cases (auth_msgs e byts mems [] n).0) [
          | inr (inl (w, am)) ↦ absurd (ground (arith, made, mb, am))
          | inr (inr am) ↦ absurd (ground (arith, made, mb, am))
          | inl (msgs, am) ↦ elim (Result-cases (e.statuses.marshal (status_with msgs))) [
            | inr (inl (w, en)) ↦ absurd (ground (arith, made, mb, am, en))
            | inr (inr en) ↦ absurd (ground (arith, made, mb, am, en))
            | inl (encoded, en) ↦
                let same : e.compress encoded ≡ content = ground (arith, made, mb, am, en) in
                let decoded : e.decompress content ≡ ok encoded =
                  ap e.decompress (sym same) ∙ unpacks encoded in
                let (s, read, of_topic, same_msgs) = reads msgs encoded en in
                (
                  s,
                  byts,
                  rw (decoded, extract_status, read) refl,
                  of_topic,
                  mb,
                  All-IsFiled e byts n mems msgs s.auth_msgs same_msgs
                      (auth_msgs-All e byts n mems [] msgs distinct am),
                )
          ]
        ]
      ]
