-- ===== src/Examples/Transports.antt =====
-- Runs of the listeners and their sockets.
use mathlib.Core.List.Permᴰ
use didcomm_prober.Prelude.{
  ◌≡◌, ◌≢◌, refl, str, ◌==◌, lookup, true, false, some, none, [], ◌∷◌, ok, arith,
}
use didcomm_prober.Prelude.Int.{pos}
use didcomm_prober.PubSub.Stores.Group.{Group, Store, mode, membrs}
use didcomm_prober.PubSub.Transport.Topics.{data_topic}
use didcomm_prober.PubSub.Transport.Messages.{ReplyIds}
use didcomm_prober.PubSub.Transport.Sockets.{
  connect_data, call, Answers, Socket, unsubscribe_all_data,
}
use didcomm_prober.PubSub.Transport.Subscriptions.{connect_each}
use didcomm_prober.PubSub.Transport.Subscriptions.Leaving.{
  is_subscribe, is_unsubscribe, is_connect, is_disconnect, Balanced, leave_undoes_join,
}
use didcomm_prober.PubSub.Transport.Replies.{
  Channels, submit, take_state, take_content, Reach, here, next, start, refused_blocks,
}
use didcomm_prober.Examples.{in_order, alice, bob, chess, member}
use didcomm_prober.Examples.Nodes.{single}

abbrev ids : ReplyIds
ids = record { state = str "s"; content = str "c" }

-- the state listener on its way to refuse the request
abbrev refusing : Channels
refusing = record start {
  awaiting_state = ids ∷ [];
  content_queue = ids ∷ [];
  state_sending = some (ids.state, false);
  used = ids.state ∷ ids.content ∷ [];
}

to_refusing : Reach start refusing
to_refusing = next (next here (submit ids refl refl)) (take_state ids [] false refl refl)

-- the data listener with its reply
abbrev replying : Channels
replying = record refusing {
  awaiting_state = [];
  state_sending = none;
  content_queue = [];
  content_sending = some (ids.content, true);
}

to_replying : Reach (record refusing { state_sending = none; awaiting_state = [] }) replying
to_replying = next here (take_content ids [] true refl refl)

-- A further request finds it there.
abbrev other : ReplyIds
other = record { state = str "t"; content = str "d" }

abbrev stuck : Channels
stuck = record replying {
  awaiting_state = other ∷ [];
  state_queue = other ∷ [];
  content_queue = other ∷ [];
  used = other.state ∷ other.content ∷ replying.used;
}

to_stuck : Reach replying stuck
unfolding ◌==◌
to_stuck = next here (submit other refl refl)

refused_blocks_example : stuck.content_sending ≡ some (ids.content, true)
refused_blocks_example =
    refused_blocks ids [] true to_refusing refl (Permᴰ.refl (ids ∷ [])) to_replying refl to_stuck

abbrev group : Group
group = record {
  topic = [];
  checksum = [];
  members = some ((bob, member bob) ∷ []);
  params = some single;
  last_updated = pos 0;
}

abbrev before : Store
before = (chess, group) ∷ []

abbrev after : Store
after =
    (chess, record group { members = some ((alice, member alice) ∷ (bob, member bob) ∷ []) }) ∷ []

abbrev yes_to_all : Answers
yes_to_all s c = ok tt

abbrev socket_joined : Socket
socket_joined = (connect_each before in_order yes_to_all alice chess (member bob ∷ []) []).1

abbrev socket_left : Socket
socket_left = (unsubscribe_all_data after in_order yes_to_all alice chess socket_joined).1

not_alice : bob ≢ alice
not_alice h = ground arith

leave_undoes_join_example :
    Balanced (is_subscribe bob) (is_unsubscribe bob) [] socket_left
    × Balanced (is_connect bob) (is_disconnect bob) [] socket_left
unfolding mode membrs lookup ◌==◌ connect_each connect_data call data_topic unsubscribe_all_data
leave_undoes_join_example =
    leave_undoes_join before after in_order in_order yes_to_all yes_to_all alice chess single.mode
      (member bob ∷ []) (member alice) [] refl refl (not_alice, tt) refl
      (Permᴰ.refl (member alice ∷ member bob ∷ [])) refl refl bob
