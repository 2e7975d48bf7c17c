-- ===== src/Examples/Syncing.antt =====
-- Runs of the syncer, of the topic names and of the subscriber store.
use didcomm_prober.Prelude.{
  ◌≡◌, ◌≢◌, ◌↔◌, ◌++◌, refl, Text, str, lookup, true, none, some, [], ◌∷◌, Result, ok, fail, arith,
  ◌==◌,
}
use didcomm_prober.Prelude.Int.{ℤ, pos, negsuc, lt_int, le_int, add_one64}
use didcomm_prober.Domain.{multiple_queue_mode}
use didcomm_prober.Domain.Messages.{Json}
use didcomm_prober.PubSub.Syncer.{Ts, GroupMsg, Syncer, message, parse, next_lamp}
use didcomm_prober.PubSub.Syncer.Clock.{message_monotone, parse-message, message_carries_foreign_id}
use didcomm_prober.PubSub.Transport.Topics.{
  data_topic, group_name_by_data_topic, group_name-data_topic, data_topic-extends,
}
use didcomm_prober.PubSub.Stores.Group.{Store, mode}
use didcomm_prober.Examples.{alice, bob, chess}

abbrev stamp : ℤ → ℤ → Ts
stamp id n = record { sender_id = id; lamp_ts = n }

abbrev node : ℤ → ℤ → Syncer
node id n = record { id = id; ts_map = (chess, stamp id n) ∷ [] }

-- the stamp in front of the payload, as two bytes, for small numbers that are not negative
abbrev small : ℤ → Text
small (pos n) = n ∷ []
small (negsuc n) = 0 ∷ []

abbrev read_stamped : Text → Result GroupMsg
read_stamped (i ∷ n ∷ t) = ok (record { ts = stamp (pos i) (pos n); payload = t })
read_stamped _ = fail "short"

abbrev stamped : Json GroupMsg
stamped = record {
  marshal = λ g. ok (small g.ts.sender_id ++ small g.ts.lamp_ts ++ g.payload);
  unmarshal = read_stamped;
}

message_monotone_example :
    (t' : Ts) × (lookup chess (message stamped chess bob (pos 5) (node (pos 1) (pos 9))).1.ts_map
      ≡ some t')
    × ((message stamped chess bob (pos 5) (node (pos 1) (pos 9))).0
        ≡ stamped.marshal (record { ts = t'; payload = bob }))
    × (le_int (pos 9) t'.lamp_ts ≡ true)
    × (le_int (pos 5) t'.lamp_ts ≡ true)
    × ((lt_int (pos 9) t'.lamp_ts ≡ true) ↔ (pos 5 ≢ pos 9))
unfolding lookup ◌==◌
message_monotone_example =
    message_monotone stamped chess bob (pos 5) (node (pos 1) (pos 9)) (stamp (pos 1) (pos 9)) refl
      refl

parse-message_example :
    ((parse stamped chess (1 ∷ 10 ∷ bob) (node (pos 2) (pos 4))).0 ≡ ok bob)
    × ((u' : Ts) × (lookup chess
            (parse stamped chess (1 ∷ 10 ∷ bob) (node (pos 2) (pos 4))).1.ts_map
          ≡ some u')
        × (le_int (pos 4) u'.lamp_ts ≡ true)
        × (le_int (next_lamp (pos 5) (pos 9)) u'.lamp_ts ≡ true))
unfolding lookup ◌==◌ message add_one64
parse-message_example =
    parse-message stamped chess bob (pos 5) (node (pos 1) (pos 9)) (node (pos 2) (pos 4))
      (stamp (pos 1) (pos 9)) (stamp (pos 2) (pos 4)) (1 ∷ 10 ∷ bob) refl refl refl (refl, refl)

message_carries_foreign_id_example :
    (t' : Ts) × (t'.sender_id ≡ pos 1)
    × ((message stamped chess alice
          (pos 3)
          (parse stamped chess (1 ∷ 10 ∷ bob) (node (pos 2) (pos 4))).1).0
        ≡ stamped.marshal (record { ts = t'; payload = alice }))
unfolding lookup ◌==◌
message_carries_foreign_id_example =
    message_carries_foreign_id stamped chess (1 ∷ 10 ∷ bob) alice (pos 3) (node (pos 2) (pos 4))
      (stamp (pos 2) (pos 4)) (record { ts = stamp (pos 1) (pos 10); payload = bob }) refl refl refl

abbrev many : Store
many =
    (
      chess,
      record {
        topic = chess;
        checksum = [];
        members = none;
        last_updated = pos 0;
        params =
            some
              (record { order_enabled = true; join_consistent = true; mode = multiple_queue_mode });
      },
    )
    ∷ []

group_name-data_topic_example :
    group_name_by_data_topic (str "urn:didcomm-queue:chess:data:alice:bob") ≡ chess
unfolding data_topic mode lookup ◌==◌
group_name-data_topic_example =
    group_name-data_topic many chess alice bob (str "urn:didcomm-queue:chess:data:alice:bob")
      (ground arith) refl

data_topic-extends_example :
    data_topic many chess alice (bob ++ str "by")
    ≡ ok (str "urn:didcomm-queue:chess:data:alice:bob" ++ str "by")
unfolding mode lookup ◌==◌ data_topic
data_topic-extends_example =
    data_topic-extends many chess alice bob (str "by")
      (str "urn:didcomm-queue:chess:data:alice:bob") refl refl
