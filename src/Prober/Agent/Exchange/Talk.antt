-- ===== src/Prober/Agent/Exchange/Talk.antt =====
-- prober/agent.go, SendMessage and ReadMessage between two probers that are connected.
use didcomm_prober.Prelude.{
  ◌≡◌, ◌≢◌, refl, sym, ap, subst, ◌∙◌, Text, ◌==◌, List, [], some, Result, ok, lookup, IsMap,
  IsRange, >>=-eq-ok, wrap, wrap-eq-ok, ok-eq, ◌>>=◌,
}
use didcomm_prober.Domain.Messages.{AuthCryptMsg}
use didcomm_prober.Crypto.Cipher.{box, seal_box, encrypt_detached}
use didcomm_prober.Crypto.Keys.{Keys, public_key, private_key}
use didcomm_prober.Crypto.Keys.Lookup.{IsOnlyHolder, peer_complete}
use didcomm_prober.Crypto.Packer.{Random, pack, new_payload}
use didcomm_prober.Crypto.Packer.RoundTrip.{unpack-pack}
use didcomm_prober.Prober.Peers.{peer_by_label}
use didcomm_prober.Prober.Agent.{
  Prober, Env, Fresh, peer_by_msg, first_kid, read_message, outgoing, info_by_servc,
}
use didcomm_prober.Prober.Agent.Exchange.{new_peer, own_services}
use didcomm_prober.Prober.Agent.Exchange.Documents.{IsFaithful}
use didcomm_prober.Prober.Agent.Exchange.Connected.{pair_of}

module _ (e : Env) (public_of : Text → Text) (laws : IsFaithful e.libs public_of) where
  open e use {libs}

  -- the protected part of a packed message, which names the receiver's key
  protected-pack :
      (rnd : Random) (input rec_key send_key send_prv : Text) (msg : AuthCryptMsg) {C : Type 0}
      → pack libs rnd input rec_key send_key send_prv ≡ ok msg
      → ((cek key byts : Text)
          → libs.base.decode64 msg.protected ≡ ok byts
          → libs.payloads.unmarshal byts ≡ ok (new_payload libs cek key rnd.cek_iv rec_key)
          → C)
      → C
  unfolding pack box seal_box encrypt_detached
  protected-pack rnd input rec_key send_key send_prv msg packed then =
      let (c, drawn, e1) = >>=-eq-ok rnd.cek _ packed in
      let (byts, written, e2) = >>=-eq-ok (libs.payloads.marshal _) _ e1 in
      then _ _ byts
        (subst (λ (m : AuthCryptMsg). libs.base.decode64 m.protected ≡ ok byts) (ok-eq e2)
          (laws.decodes byts))
        (laws.payloads _ _ _ _ byts written)

  module _ (order : List (Text × Keys) → List (Text × Keys)) (ranges : IsRange order) (rnd : Random)
      (to label text content did th_id x y : Text) (f : Fresh) (other sender receiver : Prober)
      (named : label ≢ [])
      (known : lookup to sender.peers
        ≡ some (new_peer did th_id (own_services f (public_of y) other)))
      (own_pair : lookup to sender.ks.key_store ≡ some (pair_of e public_of laws x))
      (peer_pair : lookup label receiver.ks.key_store ≡ some (pair_of e public_of laws y))
      (distinct : IsMap receiver.ks.key_store) (only : IsOnlyHolder label (public_of y) receiver.ks)
      (reads : (m : AuthCryptMsg)
        → libs.msgs.marshal m ≡ ok content
        → libs.msgs.unmarshal content ≡ ok m) where
    held :
        (n z : Text) (p : Prober)
        → lookup n p.ks.key_store ≡ some (pair_of e public_of laws z)
        → (public_key n p.ks ≡ ok (public_of z)) × (private_key n p.ks ≡ ok z)
    unfolding public_key private_key
    held n z p stored = (rw (public_key, stored) refl, rw (private_key, stored) refl)

    peer_by_msg-pack :
        (msg : AuthCryptMsg)
        → pack libs rnd text (public_of y) (public_of x) x ≡ ok msg
        → libs.msgs.unmarshal content ≡ ok msg
        → peer_by_msg e order content receiver ≡ ok label
    unfolding peer_by_msg first_kid new_payload
    peer_by_msg-pack msg packed read =
        protected-pack rnd text (public_of y) (public_of x) x msg packed
          (λ cek key byts decoded opened.
            rw (read, decoded, opened, laws.decodes_58 (public_of y))
              (peer_complete (public_of y) label receiver.ks only order ranges distinct named
                (held label y receiver peer_pair).0))

    -- what `SendMessage` hands over when the receiver is connected
    packed_to_peer : Result (Text × Text)
    packed_to_peer = do
      msg ← wrap "packing message failed" (pack libs rnd text (public_of y) (public_of x) x)
      bytes ← wrap "marshalling didcomm message failed" (libs.msgs.marshal msg)
      ok (bytes, other.exch_endpoint)

    outgoing-eq : outgoing e rnd to text sender ≡ packed_to_peer
    unfolding packed_to_peer outgoing peer_by_label own_services info_by_servc ◌==◌
    outgoing-eq =
        let (has_key, has_prv) = held to x sender own_pair in
        rw (peer_by_label, known, has_key, has_prv) refl

    -- A message that a prober makes for a connected peer goes to the endpoint of the peer, and the
    -- peer reads the text that was sent and the label under which it keeps the sender, in whatever
    -- order it visits its keys. What connected means is what the DID exchange leaves behind: the sender
    -- stores the receiver with services that carry the public key of the pair that the receiver keeps
    -- for the sender's label, which is not empty, and each of the two has its pair. It is assumed that
    -- the receiver's labels are distinct and that it uses that public key for no other label, that the
    -- libraries are faithful, and that the message is made and reads back from its JSON.
    pub read-outgoing :
        (endpoint : Text)
        → outgoing e rnd to text sender ≡ ok (content, endpoint)
        → (endpoint ≡ other.exch_endpoint)
          × (read_message e order content receiver ≡ ok (label, text))
    unfolding packed_to_peer read_message
    read-outgoing endpoint made =
        let (has_key, has_prv) = held label y receiver peer_pair in
        let (msg, packing, made_1) =
          >>=-eq-ok
            (wrap "packing message failed" (pack libs rnd text (public_of y) (public_of x) x)) _
            (sym outgoing-eq ∙ made) in
        let (byts, writing, made_2) =
          >>=-eq-ok (wrap "marshalling didcomm message failed" (libs.msgs.marshal msg)) _ made_1 in
        let packed = wrap-eq-ok _ _ packing in
        let ends : ◌≡◌ {A = Text × Text} (byts, other.exch_endpoint) (content, endpoint) =
          ok-eq made_2 in
        let read = reads msg (wrap-eq-ok _ _ writing ∙ ap (λ (i : Text × Text). ok i.0) ends) in
        (
          sym (ap (λ (i : Text × Text). i.1) ends),
          rw
              (
                peer_by_msg-pack msg packed read,
                has_key,
                has_prv,
                unpack-pack libs public_of laws.sodium laws.decodes laws.payloads rnd text x y
                    content msg packed read,
              )
              refl,
        )
