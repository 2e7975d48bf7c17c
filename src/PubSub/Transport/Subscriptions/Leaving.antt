-- ===== src/PubSub/Transport/Subscriptions/Leaving.antt =====
-- pubsub/transport/zmq.go: leaving a group takes the data subscriptions of joining it back.
use mathlib.Core.List.{Permᴰ}
use didcomm_prober.Prelude.{
  ◌+◌, ◌≡◌, ◌≢◌, refl, ◌++◌, Text, str, ◌==◌, eq_iff, Bool, false, List, [], ◌∷◌, arith, All,
  Bool-cases, inl, inr, ok, if◌then◌else◌,
}
use didcomm_prober.Prelude.Sums.{total, total-perm, total_none}
use didcomm_prober.Domain.{Member, GroupMode, single_queue_mode, topic_prefix}
use didcomm_prober.PubSub.Stores.Group.{Store, mode, membrs}
use didcomm_prober.PubSub.Transport.Topics.{data_topic}
use didcomm_prober.PubSub.Transport.Sockets.{
  Call, connect, disconnect, subscribe, unsubscribe, client_auth, Socket, Answers,
  unsubscribe_all_data,
}
use didcomm_prober.PubSub.Transport.Sockets.Counting.{times, Adds}
use didcomm_prober.PubSub.Transport.Subscriptions.{
  connect_each, opens, closes, connect_each-Adds, unsubscribe_each-Adds,
}

-- the tests by which the calls are counted
abbrev pub is_subscribe : Text → Call → Bool
is_subscribe t (subscribe u) = u == t
is_subscribe t (connect u) = false
is_subscribe t (disconnect u) = false
is_subscribe t (unsubscribe u) = false
is_subscribe t (client_auth u) = false

abbrev pub is_unsubscribe : Text → Call → Bool
is_unsubscribe t (unsubscribe u) = u == t
is_unsubscribe t (connect u) = false
is_unsubscribe t (disconnect u) = false
is_unsubscribe t (subscribe u) = false
is_unsubscribe t (client_auth u) = false

abbrev pub is_connect : Text → Call → Bool
is_connect t (connect u) = u == t
is_connect t (subscribe u) = false
is_connect t (disconnect u) = false
is_connect t (unsubscribe u) = false
is_connect t (client_auth u) = false

abbrev pub is_disconnect : Text → Call → Bool
is_disconnect t (disconnect u) = u == t
is_disconnect t (connect u) = false
is_disconnect t (unsubscribe u) = false
is_disconnect t (subscribe u) = false
is_disconnect t (client_auth u) = false

-- Every call of the first kind since `before` was taken back by one of the second kind.
abbrev pub Balanced : (Call → Bool) → (Call → Bool) → Socket → Socket → Type 0
Balanced open_call close_call before after =
    times open_call after + times close_call before
    ≡ times open_call before + times close_call after

abbrev named : GroupMode → Text → Text → Text → Text
named md topic sub pub_label =
    if md == single_queue_mode
    then topic_prefix ++ (topic ++ str ":data")
    else topic_prefix ++ (topic ++ (str ":data:" ++ (pub_label ++ (b':' ∷ sub))))

data_topic-named :
    (gs : Store) (md : GroupMode) (topic l label : Text)
    → mode topic gs ≡ ok md
    → data_topic gs topic l label ≡ ok (named md topic label l)
unfolding data_topic
data_topic-named gs md topic l label h = elim (Bool-cases (md == single_queue_mode)) [
  | inl t ↦ rw (h, t) refl
  | inr n ↦ rw (h, n) refl
]

module _ (label topic : Text) (md : GroupMode) where
  abbrev topic_of : Text → Text
  topic_of = named md topic label

  total-closes_of-opens :
      (f g : Call → Bool) (ms : List Member)
      → ((m : Member) → m.label ≢ label → opens topic_of f m ≡ closes label topic_of g m)
      → All (λ m. m.label ≢ label) ms
      → total (opens topic_of f) ms ≡ total (closes label topic_of g) ms
  total-closes_of-opens f g [] e a = refl
  total-closes_of-opens f g (m ∷ ms) e a =
      omega (arith, e m a.0, total-closes_of-opens f g ms e a.1)

  closes-own :
      (g : Call → Bool) (self : Member) → self.label ≡ label → closes label topic_of g self ≡ 0
  unfolding closes
  closes-own g self h = ground (arith, eq_iff self.label label)

module _ (gs gs' : Store) (order order' : List Member → List Member) (answers answers' : Answers)
    (label topic : Text) (md : GroupMode) (ms : List Member) (self : Member) (s : Socket)
    (joined_mode : mode topic gs ≡ ok md) (left_mode : mode topic gs' ≡ ok md)
    (others : All (λ m. m.label ≢ label) ms) (own : self.label ≡ label)
    (group : Permᴰ (membrs order' topic gs') (self ∷ ms))
    (join_done : (connect_each gs order answers label topic ms s).0 ≡ ok tt) where
  abbrev pub joined_socket : Socket
  joined_socket = (connect_each gs order answers label topic ms s).1

  abbrev pub left_socket : Socket
  left_socket = (unsubscribe_all_data gs' order' answers' label topic joined_socket).1

  count_after :
      (f : Call → Bool)
      → (unsubscribe_all_data gs' order' answers' label topic joined_socket).0 ≡ ok tt
      → times f left_socket
        ≡ total (closes label (topic_of label topic md) f) (self ∷ ms)
          + (total (opens (topic_of label topic md) f) ms + times f s)
  unfolding unsubscribe_all_data Adds
  count_after f left_done = omega (
    arith,
    connect_each-Adds gs order answers label topic (topic_of label topic md)
        (λ l. data_topic-named gs md topic l label joined_mode) f ms s join_done,
    unsubscribe_each-Adds gs' order' answers' label topic (topic_of label topic md)
        (λ l. data_topic-named gs' md topic l label left_mode) f (membrs order' topic gs')
        joined_socket left_done,
    total-perm (closes label (topic_of label topic md) f) group,
  )

  balanced :
      (f g : Call → Bool)
      → ((m : Member) → opens (topic_of label topic md) g m ≡ 0)
      → ((m : Member) → closes label (topic_of label topic md) f m ≡ 0)
      → ((m : Member)
          → m.label ≢ label
          → opens (topic_of label topic md) f m ≡ closes label (topic_of label topic md) g m)
      → (unsubscribe_all_data gs' order' answers' label topic joined_socket).0 ≡ ok tt
      → Balanced f g s left_socket
  balanced f g no_open no_close same left_done = omega (
    arith,
    count_after f left_done,
    count_after g left_done,
    total_none (opens (topic_of label topic md) g) ms no_open,
    total_none (closes label (topic_of label topic md) f) ms no_close,
    no_close self,
    closes-own label topic md g self own,
    total-closes_of-opens label topic md f g ms same others,
  )

  -- Leaving a group takes back, at the data socket, what joining it did. The data listener connected
  -- to the members of a group for this node, then unsubscribed it from all of the group; neither
  -- reported an error, and in between the node itself was added to the members, whose order may have
  -- changed, and the group's mode was the same. Then for every topic there are as many new
  -- subscriptions as unsubscriptions, and for every endpoint as many connections as disconnections.
  pub leave_undoes_join :
      (unsubscribe_all_data gs' order' answers' label topic joined_socket).0 ≡ ok tt
      → (t : Text)
      → Balanced (is_subscribe t) (is_unsubscribe t) s left_socket
        × Balanced (is_connect t) (is_disconnect t) s left_socket
  unfolding opens closes
  leave_undoes_join left_done t = (
    balanced (is_subscribe t) (is_unsubscribe t) (λ m. ground arith) (λ m. ground arith)
        (λ m ne. ground (arith, eq_iff m.label label)) left_done,
    balanced (is_connect t) (is_disconnect t) (λ m. ground arith) (λ m. ground arith)
        (λ m ne. ground (arith, eq_iff m.label label)) left_done,
  )
