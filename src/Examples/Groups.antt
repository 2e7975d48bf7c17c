-- ===== src/Examples/Groups.antt =====
-- Runs of the validator and of the group store.
use didcomm_prober.Prelude.Buffers.{buffered}
use mathlib.Core.List.{Permᴰ}
use didcomm_prober.Prelude.{
  ◌≡◌, ◌≢◌, ◌↔◌, refl, Text, str, Assoc, lookup, keys-Nodup, eq_iff, true, none, some, [], ◌∷◌,
  panic, is_ok, arith, text_le, ◌==◌, insert,
}
use didcomm_prober.Prelude.Int.{pos}
use didcomm_prober.Domain.{Member, GroupParams, single_queue_mode}
use didcomm_prober.PubSub.Validator.{calculate, verify, valid_join}
use didcomm_prober.PubSub.Validator.Holders.{Uniform}
use didcomm_prober.PubSub.Validator.Vote.{verify-Uniform, verify-IsMinority, IsMinority}
use didcomm_prober.PubSub.Validator.Joins.{valid_join_iff, Agree}
use didcomm_prober.PubSub.Validator.Order.{calculate-perm}
use didcomm_prober.PubSub.Stores.Group.{Group, Store, add_membrs, mode}
use didcomm_prober.PubSub.Stores.Group.Sound.{IsSound}
use didcomm_prober.PubSub.Stores.Group.Methods.{add_membrs-IsSound}
use didcomm_prober.PubSub.Stores.Group.Reads.{mode-add_membrs_unknown}
use didcomm_prober.Examples.{
  in_order, in_order-IsRange, alice, bob, chess, member, digest, agreeing, split_three,
}

verify-Uniform_example :
    ((verify in_order in_order agreeing).1 ≡ true) ↔ ((w : Text) × Uniform w agreeing)
verify-Uniform_example = verify-Uniform in_order in_order in_order-IsRange in_order-IsRange agreeing

verify-IsMinority_example :
    IsMinority in_order in_order in_order-IsRange in_order-IsRange split_three
      (verify in_order in_order split_three).0
unfolding verify
verify-IsMinority_example =
    verify-IsMinority in_order in_order in_order-IsRange in_order-IsRange split_three refl

abbrev bob_hash : Assoc Text
bob_hash = (bob, str "alicebob.") ∷ []

valid_join_iff_example :
    (is_ok (valid_join digest in_order in_order alice (member bob ∷ member alice ∷ []) bob_hash)
      ≡ true)
    ↔ Agree alice (str "alicebob.") bob_hash
unfolding lookup calculate buffered text_le ◌==◌
valid_join_iff_example =
    valid_join_iff digest in_order in_order in_order-IsRange in_order-IsRange alice
      (str "alicebob.") (member bob ∷ member alice ∷ []) bob_hash (refl, tt) refl

calculate-perm_example :
    calculate digest (member alice ∷ member bob ∷ [])
    ≡ calculate digest (member bob ∷ member alice ∷ [])
unfolding lookup ◌==◌
calculate-perm_example =
    calculate-perm digest (member alice ∷ member bob ∷ []) (member bob ∷ member alice ∷ [])
      ∣ Permᴰ.swap refl refl ∣₁ (keys-Nodup agreeing (refl, (refl, tt)))

empty-IsSound : IsSound digest []
unfolding lookup
empty-IsSound t g e = ground arith

-- the store of a node that was told of two members in one order, or in the other
abbrev one_way : Store
one_way = (add_membrs digest in_order chess (member alice ∷ member bob ∷ []) []).1

abbrev other_way : Store
other_way = (add_membrs digest in_order chess (member bob ∷ member alice ∷ []) []).1

one_way-IsSound : IsSound digest one_way
unfolding add_membrs lookup insert ◌==◌ calculate buffered text_le
one_way-IsSound =
    add_membrs-IsSound digest in_order in_order-IsRange chess (member alice ∷ member bob ∷ []) []
      empty-IsSound refl

other_way-IsSound : IsSound digest other_way
unfolding add_membrs lookup insert ◌==◌ calculate buffered text_le
other_way-IsSound =
    add_membrs-IsSound digest in_order in_order-IsRange chess (member bob ∷ member alice ∷ []) []
      empty-IsSound refl

abbrev single : GroupParams
single = record { order_enabled = true; join_consistent = true; mode = single_queue_mode }

abbrev alice_bob : Group
alice_bob = record {
  topic = [];
  checksum = str "alicebob.";
  params = none;
  last_updated = pos 0;
  members = some ((alice, member alice) ∷ (bob, member bob) ∷ []);
}

abbrev bob_alice : Group
bob_alice = record {
  topic = [];
  checksum = str "alicebob.";
  params = none;
  last_updated = pos 0;
  members = some ((bob, member bob) ∷ (alice, member alice) ∷ []);
}

alice_not_bob : alice ≢ bob
alice_not_bob h = ground arith

lookup_swap :
    (a b : Text) (m n : Member)
    → a ≢ b
    → (l : Text) → lookup l ((a, m) ∷ (b, n) ∷ []) ≡ lookup l ((b, n) ∷ (a, m) ∷ [])
unfolding lookup
lookup_swap a b m n ne l = ground (arith, eq_iff a l, eq_iff b l)

mode-add_membrs_unknown_example :
    mode chess (add_membrs digest in_order chess (member bob ∷ []) []).1 ≡ panic
unfolding lookup
mode-add_membrs_unknown_example = mode-add_membrs_unknown digest in_order chess (member bob) [] refl
