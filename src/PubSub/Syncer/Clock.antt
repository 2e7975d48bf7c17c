-- ===== src/PubSub/Syncer/Clock.antt =====
-- The stamps that messages carry.
use didcomm_prober.Prelude.{
  ◌≡◌, refl, sym, ap, ◌≢◌, ◌↔◌, Text, eq_refl, lookup, lookup-insert, true, none, some, arith, ok,
  Bool-cases, inl, inr,
}
use didcomm_prober.Prelude.Int.{
  ℤ, pos, lt_int, le_int, add_one64, max_int64, lt-add_one64, le_int_of_lt, le_int_of_not-lt,
  le_int_of_not-le, le_int_refl, le_int_trans, lt_int_irrefl, lt_int_of_le,
}
use didcomm_prober.Domain.Messages.{Json, Encodes}
use didcomm_prober.PubSub.Syncer.{Ts, GroupMsg, Syncer, parse, message, next_lamp}

-- A stored stamp that can still grow.
abbrev pub HasRoom : Ts → Type 0
HasRoom t = lt_int t.lamp_ts (pos max_int64) ≡ true

next_lamp-ge_stored :
    (now stored : ℤ)
    → lt_int stored (pos max_int64) ≡ true
    → le_int stored (next_lamp now stored) ≡ true
unfolding next_lamp
next_lamp-ge_stored now stored room = ground (
  arith,
  le_int_of_not-lt now stored,
  lt-add_one64 stored,
  le_int_of_lt stored (add_one64 stored),
)

next_lamp-ge_now :
    (now stored : ℤ)
    → lt_int stored (pos max_int64) ≡ true
    → le_int now (next_lamp now stored) ≡ true
unfolding next_lamp
next_lamp-ge_now now stored room = ground (
  arith,
  le_int_refl now,
  le_int_of_lt now stored,
  lt-add_one64 stored,
  le_int_of_lt stored (add_one64 stored),
  le_int_trans now stored (add_one64 stored),
)

next_lamp_strict :
    (now stored : ℤ)
    → lt_int stored (pos max_int64) ≡ true
    → (lt_int stored (next_lamp now stored) ≡ true) ↔ (now ≢ stored)
unfolding next_lamp
next_lamp_strict now stored room = elim (Bool-cases (lt_int now stored)) [
  | inl behind ↦ (
    λ _ e. cc (ap_lt now stored e, lt_int_irrefl stored, behind),
    λ _. rw behind (lt-add_one64 stored room),
  )
  | inr ahead ↦ (
    λ h e. ground (arith, ap_lt now stored e, lt_int_irrefl stored),
    λ ne. rw ahead (lt_int_of_le stored now (le_int_of_not-lt now stored ahead) (λ e. ne (sym e))),
  )
]
  where
    ap_lt : (now stored : ℤ) → now ≡ stored → lt_int now stored ≡ lt_int stored stored
    ap_lt now stored e = ap (λ x. lt_int x stored) e

-- Building a message in an ordered topic, whose stored stamp is below the largest int64, never moves
-- the topic's clock backwards, nor behind the wall clock, and the message carries the new stamp; it moves it forwards exactly when the wall clock does not read the stored stamp.
pub message_monotone :
    (j : Json GroupMsg) (topic content : Text) (now : ℤ) (s : Syncer) (t : Ts)
    → lookup topic s.ts_map ≡ some t
    → HasRoom t
    → (t' : Ts) × (lookup topic (message j topic content now s).1.ts_map ≡ some t')
      × ((message j topic content now s).0 ≡ j.marshal (record { ts = t'; payload = content }))
      × (le_int t.lamp_ts t'.lamp_ts ≡ true)
      × (le_int now t'.lamp_ts ≡ true)
      × ((lt_int t.lamp_ts t'.lamp_ts ≡ true) ↔ (now ≢ t.lamp_ts))
unfolding message
message_monotone j topic content now s t found room = (
  record t { lamp_ts = next_lamp now t.lamp_ts },
  ground (
    arith,
    lookup-insert topic topic (record t { lamp_ts = next_lamp now t.lamp_ts }) s.ts_map,
    eq_refl topic,
  ),
  ground arith,
  next_lamp-ge_stored now t.lamp_ts room,
  next_lamp-ge_now now t.lamp_ts room,
  next_lamp_strict now t.lamp_ts room,
)

-- A message that a synced node builds, in JSON that reads back as what was written, and another
-- synced node reads arrives unchanged, and leaves
-- the reader's clock at no less than the stamp on the message and than its own stamp before.
pub parse-message :
    (j : Json GroupMsg) (topic content : Text) (now : ℤ) (s r : Syncer) (t u : Ts) (msg : Text)
    → lookup topic s.ts_map ≡ some t
    → lookup topic r.ts_map ≡ some u
    → (message j topic content now s).0 ≡ ok msg
    → Encodes j
        (record { ts = record t { lamp_ts = next_lamp now t.lamp_ts }; payload = content })
        msg
    → ((parse j topic msg r).0 ≡ ok content)
      × ((u' : Ts) × (lookup topic (parse j topic msg r).1.ts_map ≡ some u')
          × (le_int u.lamp_ts u'.lamp_ts ≡ true)
          × (le_int (next_lamp now t.lamp_ts) u'.lamp_ts ≡ true))
unfolding message parse
parse-message j topic content now s r t u msg sent known built coded =
    let stamp : Ts = record t { lamp_ts = next_lamp now t.lamp_ts } in
    elim (Bool-cases (le_int u.lamp_ts stamp.lamp_ts)) [
      | inl newer ↦ (
        ground (arith, coded.1),
        (
          stamp,
          ground (arith, coded.1, lookup-insert topic topic stamp r.ts_map, eq_refl topic),
          newer,
          le_int_refl stamp.lamp_ts,
        ),
      )
      | inr older ↦ (
        ground (arith, coded.1),
        (
          u,
          ground (arith, coded.1),
          le_int_refl u.lamp_ts,
          le_int_of_not-le u.lamp_ts stamp.lamp_ts older,
        ),
      )
    ]

-- In a topic without a clock both directions hand the content on as it is.
pub unordered_transparent :
    (j : Json GroupMsg) (topic content : Text) (now : ℤ) (s : Syncer)
    → lookup topic s.ts_map ≡ none
    → (message j topic content now s ≡ (ok content, s))
      × (parse j topic content s ≡ (ok content, s))
unfolding message parse
unordered_transparent j topic content now s h = ground arith

-- Once a stamp that is not older has been read, the messages that the reader itself builds carry
-- the sender id of that stamp, and not the reader's own id.
pub message_carries_foreign_id :
    (j : Json GroupMsg) (topic msg content : Text) (now : ℤ) (r : Syncer) (u : Ts) (gm : GroupMsg)
    → lookup topic r.ts_map ≡ some u
    → j.unmarshal msg ≡ ok gm
    → le_int u.lamp_ts gm.ts.lamp_ts ≡ true
    → (t' : Ts) × (t'.sender_id ≡ gm.ts.sender_id)
      × ((message j topic content now (parse j topic msg r).1).0
          ≡ j.marshal (record { ts = t'; payload = content }))
unfolding message parse
message_carries_foreign_id j topic msg content now r u gm known read newer = (
  record gm.ts { lamp_ts = next_lamp now gm.ts.lamp_ts },
  refl,
  ground (arith, lookup-insert topic topic gm.ts r.ts_map, eq_refl topic),
)
