-- ===== src/Examples/Messages.antt =====
-- Runs of the nonces and of the key store.
use didcomm_prober.Prelude.{
  ◌≡◌, refl, eq_iff, str, none, some, [], ◌∷◌, ok, length, take, lookup, arith, ◌==◌,
}
use didcomm_prober.Crypto.Cipher.{modify_nonce, nonce_bytes, padded, modify_nonce_lem}
use didcomm_prober.Crypto.Keys.{Keys, KeyManager, peer, public_key}
use didcomm_prober.Crypto.Keys.Lookup.{IsOnlyHolder, peer_sound, peer_complete}
use didcomm_prober.Examples.{in_order, in_order-IsRange, alice, bob}

modify_nonce_lem_example :
    (modify_nonce (str "7") ≡ some (take nonce_bytes (padded (str "7"))))
    × (length (take nonce_bytes (padded (str "7"))) ≡ nonce_bytes)
modify_nonce_lem_example = modify_nonce_lem (str "7")

abbrev alice_keys : Keys
alice_keys = record { public = str "pa"; private = str "sa" }

abbrev keys : KeyManager
keys = record {
  inv_pub_key = none;
  inv_prv_key = none;
  key_store = (alice, alice_keys) ∷ (bob, record { public = str "pb"; private = str "sb" }) ∷ [];
}

peer_sound_example : public_key bob keys ≡ ok (str "pb")
unfolding peer ◌==◌ lookup
peer_sound_example = peer_sound in_order (str "pb") bob keys (λ h. ground arith) refl

bob_only : IsOnlyHolder bob (str "pb") keys
unfolding lookup
bob_only m ks e p = ground (arith, e, p, eq_iff alice m, eq_iff bob m)

peer_complete_example : peer in_order (str "pb") keys ≡ ok bob
unfolding lookup ◌==◌ public_key
peer_complete_example =
    peer_complete (str "pb") bob keys bob_only in_order in_order-IsRange (refl, (refl, tt))
      (λ h. ground arith) refl
