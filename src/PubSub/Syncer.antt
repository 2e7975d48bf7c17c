-- ===== src/PubSub/Syncer.antt =====
-- pubsub/syncer.go: Lamport timestamps on the data messages of the topics that are kept in order.
-- The clock's reading is an argument; `lamp_ts` is an int64.
pub mod Clock
use didcomm_prober.Prelude.{
  Text, Assoc, lookup, insert, [], Option, none, some, Result, ok, err, panic, wrap, if◌then◌else◌,
}
use didcomm_prober.Prelude.Int.{ℤ, lt_int, le_int, add_one64}
use didcomm_prober.Domain.Messages.{Json}

pub record Ts : Type 0 where
  pub sender_id : ℤ
  pub lamp_ts : ℤ

pub record GroupMsg : Type 0 where
  pub ts : Ts
  pub payload : Text

pub record Syncer : Type 0 where
  pub id : ℤ
  pub ts_map : Assoc Ts

-- newSyncer, with the random id drawn
unfoldable pub new_syncer : ℤ → Syncer
new_syncer id = record { id = id; ts_map = [] }

unfoldable pub init : Text → ℤ → Syncer → Syncer
init topic now s = record s {
  ts_map = insert topic (record { sender_id = s.id; lamp_ts = now }) s.ts_map;
}

-- `if storedTs.LampTs <= gm.Ts.LampTs`: the message's stamp replaces the stored one, sender and all.
received : Text → Ts → Ts → Syncer → Syncer
received topic stored incoming s =
    if le_int stored.lamp_ts incoming.lamp_ts
    then record s { ts_map = insert topic incoming s.ts_map }
    else s

parse_known : Text → Ts → Result GroupMsg → Syncer → Result Text × Syncer
unfolding received
parse_known topic stored (ok gm) s = (ok gm.payload, received topic stored gm.ts s)
parse_known topic stored (err e) s = (wrap "unmarshalling message failed" (err e), s)
parse_known topic stored panic s = (panic, s)

unfoldable pub parse : Json GroupMsg → Text → Text → Syncer → Result Text × Syncer
unfolding parse_known
parse j topic msg s = elim (lookup topic s.ts_map) [
  | none ↦ (ok msg, s)
  | some stored ↦ parse_known topic stored (j.unmarshal msg) s
]

unfoldable pub next_lamp : ℤ → ℤ → ℤ
next_lamp now stored = if lt_int now stored then add_one64 stored else now

unfoldable pub message : Json GroupMsg → Text → Text → ℤ → Syncer → Result Text × Syncer
unfolding next_lamp
message j topic content now s = elim (lookup topic s.ts_map) [
  | none ↦ (ok content, s)
  | some stored ↦
      let ts : Ts = record stored { lamp_ts = next_lamp now stored.lamp_ts } in
      (
        j.marshal (record { ts = ts; payload = content }),
        record s { ts_map = insert topic ts s.ts_map },
      )
]
