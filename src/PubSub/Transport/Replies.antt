-- ===== src/PubSub/Transport/Replies.antt =====
-- pubsub/transport/zmq.go with sendConnect, sendSubscribe and sendAuth of pubsub/processor.go: a
-- request goes to both listeners, each of which replies on an unbuffered channel. The requester reads
-- the state listener's reply first, and the data listener's only if that one is no error. Requesters
-- and listeners run concurrently: a step relation.
use mathlib.Core.List.{Permᴰ}
use didcomm_prober.Prelude.{
  ℕ, ◌+◌, ◌≤◌, ◌≡◌, Text, ◌==◌, eq_iff, eq_refl, Bool, true, false, ◌||◌, Option, none, some, List,
  [], ◌∷◌, ◌++◌, arith, Bool-cases, inl, inr,
}
use didcomm_prober.Prelude.Sums.{one_if, total, total-perm}
use didcomm_prober.PubSub.Transport.Messages.{ReplyIds}

-- `used` are the ids that were drawn for channels so far.
pub record Channels : Type 0 where
  pub awaiting_state : List ReplyIds
  pub awaiting_content : List Text
  pub state_queue : List ReplyIds
  pub content_queue : List ReplyIds
  pub state_sending : Option (Text × Bool)
  pub content_sending : Option (Text × Bool)
  pub used : List Text

abbrev pub known : Text → List Text → Bool
known i [] = false
known i (u ∷ us) = (u == i) || known i us

pub data Step (c : Channels) : Channels → Type 0 where
  -- A requester draws two new ids and sends its request to both listeners.
  submit :
      (r : ReplyIds)
      → known r.state c.used ≡ false
      → known r.content c.used ≡ false
      → Step c (record c {
        awaiting_state = r ∷ c.awaiting_state;
        state_queue = c.state_queue ++ r ∷ [];
        content_queue = c.content_queue ++ r ∷ [];
        used = r.state ∷ r.content ∷ c.used;
      })
  -- A listener that is not in the middle of a reply takes the next request, and comes to a result.
  take_state :
      (r : ReplyIds) (rest : List ReplyIds) (result : Bool)
      → c.state_sending ≡ none
      → c.state_queue ≡ r ∷ rest
      → Step c (record c { state_queue = rest; state_sending = some (r.state, result) })
  take_content :
      (r : ReplyIds) (rest : List ReplyIds) (result : Bool)
      → c.content_sending ≡ none
      → c.content_queue ≡ r ∷ rest
      → Step c (record c { content_queue = rest; content_sending = some (r.content, result) })
  -- A reply is sent when its reader reads.
  state_done :
      (r : ReplyIds) (rest : List ReplyIds)
      → c.state_sending ≡ some (r.state, true)
      → Permᴰ c.awaiting_state (r ∷ rest)
      → Step c (record c {
        state_sending = none;
        awaiting_state = rest;
        awaiting_content = r.content ∷ c.awaiting_content;
      })
  state_refused :
      (r : ReplyIds) (rest : List ReplyIds)
      → c.state_sending ≡ some (r.state, false)
      → Permᴰ c.awaiting_state (r ∷ rest)
      → Step c (record c { state_sending = none; awaiting_state = rest })
  content_done :
      (i : Text) (rest : List Text) (result : Bool)
      → c.content_sending ≡ some (i, result)
      → Permᴰ c.awaiting_content (i ∷ rest)
      → Step c (record c { content_sending = none; awaiting_content = rest })

pub data Reach (c : Channels) : Channels → Type 0 where
  here : Reach c c
  next : {d e : Channels} → Reach c d → Step d e → Reach c e

abbrev pub start : Channels
start = record {
  awaiting_state = [];
  awaiting_content = [];
  state_queue = [];
  content_queue = [];
  state_sending = none;
  content_sending = none;
  used = [];
}

-- how many requesters read the data channel `i`, or will once they have their state reply
readers : Text → Channels → ℕ
readers i c =
    total (λ r. one_if (r.content == i)) c.awaiting_state
    + total (λ u. one_if (u == i)) c.awaiting_content

-- A channel has one reader at most, and only a drawn one has any.
abbrev IsFair : Channels → Type 0
IsFair c = (i : Text) → readers i c ≤ one_if (known i c.used)

Step-IsFair : {c d : Channels} → Step c d → IsFair c → IsFair d
unfolding readers
Step-IsFair {c} (submit r s t) h i = ground (arith, h i, eq_iff r.content i, eq_iff r.state i)
Step-IsFair {c} (take_state r rest b s q) h i = h i
Step-IsFair {c} (take_content r rest b s q) h i = h i
Step-IsFair {c} (state_done r rest s p) h i =
    omega (arith, h i, total-perm (λ (r : ReplyIds). one_if (r.content == i)) p)
Step-IsFair {c} (state_refused r rest s p) h i =
    omega (arith, h i, total-perm (λ (r : ReplyIds). one_if (r.content == i)) p)
Step-IsFair {c} (content_done j rest b s p) h i =
    omega (arith, h i, total-perm (λ (u : Text). one_if (u == i)) p)

Reach-IsFair : {c d : Channels} → IsFair c → Reach c d → IsFair d
Reach-IsFair h here = h
Reach-IsFair h (next r s) = Step-IsFair s (Reach-IsFair h r)

start-IsFair : IsFair start
unfolding readers
start-IsFair i = omega arith

-- A drawn channel that nobody reads or will read.
Abandoned : Text → Channels → Type 0
Abandoned i c = (readers i c ≡ 0) × (known i c.used ≡ true)

Step-Abandoned : (i : Text) {c d : Channels} → Step c d → Abandoned i c → Abandoned i d
unfolding readers Abandoned
Step-Abandoned i {c} (submit r s t) h = ground (arith, eq_iff r.content i, eq_iff r.state i)
Step-Abandoned i {c} (take_state r rest b s q) h = h
Step-Abandoned i {c} (take_content r rest b s q) h = h
Step-Abandoned i {c} (state_done r rest s p) h =
    (omega (arith, h.0, total-perm (λ (r : ReplyIds). one_if (r.content == i)) p), h.1)
Step-Abandoned i {c} (state_refused r rest s p) h =
    (omega (arith, h.0, total-perm (λ (r : ReplyIds). one_if (r.content == i)) p), h.1)
Step-Abandoned i {c} (content_done j rest b s p) h =
    (omega (arith, h.0, total-perm (λ (u : Text). one_if (u == i)) p), h.1)

Reach-Abandoned : (i : Text) {c d : Channels} → Reach c d → Abandoned i c → Abandoned i d
Reach-Abandoned i here h = h
Reach-Abandoned i (next r s) h = Step-Abandoned i s (Reach-Abandoned i r h)

-- A reply to nobody is never finished.
Step-stuck :
    (i : Text) (b : Bool) {c d : Channels}
    → Step c d
    → Abandoned i c
    → c.content_sending ≡ some (i, b)
    → d.content_sending ≡ some (i, b)
unfolding Abandoned readers
Step-stuck i b {c} (submit r s t) h e = e
Step-stuck i b {c} (take_state r rest x s q) h e = e
Step-stuck i b {c} (take_content r rest x s q) h e = cc
Step-stuck i b {c} (state_done r rest s p) h e = e
Step-stuck i b {c} (state_refused r rest s p) h e = e
Step-stuck i b {c} (content_done j rest x s p) h e =
    let same : j ≡ i = cc in
    let found : (j == i) ≡ true = rw same (eq_refl i) in
    absurd (ground (arith, h.0, found, total-perm (λ (u : Text). one_if (u == i)) p))

Reach-stuck :
    (i : Text) (b : Bool) {c d : Channels}
    → Reach c d
    → Abandoned i c
    → c.content_sending ≡ some (i, b)
    → d.content_sending ≡ some (i, b)
Reach-stuck i b here h e = e
Reach-stuck i b (next r s) h e = Step-stuck i b s (Reach-Abandoned i r h) (Reach-stuck i b r h e)

state_refused-Abandoned :
    (r : ReplyIds) (rest : List ReplyIds) (c : Channels)
    → IsFair c
    → Permᴰ c.awaiting_state (r ∷ rest)
    → Abandoned r.content (record c { state_sending = none; awaiting_state = rest })
unfolding Abandoned readers
state_refused-Abandoned r rest c h p =
    let found : (r.content == r.content) ≡ true = eq_refl r.content in
    let count = total-perm (λ (q : ReplyIds). one_if (q.content == r.content)) p in
    elim (Bool-cases (known r.content c.used)) [
      | inl k ↦ (ground (arith, h r.content, found, count, k), k)
      | inr k ↦ absurd (ground (arith, h r.content, found, count, k))
    ]

-- Once the state listener refused a request that any run of the transport came to, the data
-- listener's reply to the same request has no reader: as soon as the data listener sends it, it
-- sends it in every later state, so that it takes no further request and no further message.
pub refused_blocks :
    (r : ReplyIds) (rest : List ReplyIds) (b : Bool) {c d e : Channels}
    → Reach start c
    → c.state_sending ≡ some (r.state, false)
    → Permᴰ c.awaiting_state (r ∷ rest)
    → Reach (record c { state_sending = none; awaiting_state = rest }) d
    → d.content_sending ≡ some (r.content, b)
    → Reach d e
    → e.content_sending ≡ some (r.content, b)
refused_blocks r rest b {c} run refused reader then_d sending then_e =
    Reach-stuck r.content b then_e
      (Reach-Abandoned r.content then_d
        (state_refused-Abandoned r rest c (Reach-IsFair start-IsFair run) reader))
      sending
