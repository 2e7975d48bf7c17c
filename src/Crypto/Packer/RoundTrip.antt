-- ===== src/Crypto/Packer/RoundTrip.antt =====
-- What is packed for a receiver is what the receiver unpacks.
use didcomm_prober.Prelude.{◌≡◌, ◌∙◌, sym, Text, ok, >>=-eq-ok}
use didcomm_prober.Domain.Messages.{AuthCryptMsg, BaseCodec}
use didcomm_prober.Crypto.Cipher.{
  Sodium, box, box_open, seal_box, seal_box_open, encrypt_detached, decrypt_detached,
}
use didcomm_prober.Crypto.Packer.{Random, Libraries, pack, unpack, new_payload}

-- What libsodium promises for the key pairs (`public_of` a private key): a box opens for its receiver
-- and its sender under the same nonce, a sealed box opens for its receiver, and what is encrypted
-- under a nonce and a key decrypts under them. Base 64 decodes what it encodes.
pub record IsSodium (s : Sodium) (public_of : Text → Text) : Type 0 where
  pub box_opens :
      (m n a b : Text)
      → (s.box_open_easy (s.box_easy m n (public_of b) a).0 n (public_of a) b).0 ≡ m
  pub seal_opens :
      (m b : Text) → (s.box_seal_open (s.box_seal m (public_of b)).0 (public_of b) b).0 ≡ m
  pub decrypts :
      (m ad n k : Text)
      → s.aead_decrypt (s.aead_encrypt m ad n k).0 (s.aead_encrypt m ad n k).1 ad n k ≡ ok m

abbrev pub Decodes : BaseCodec → Type 0
Decodes c = (t : Text) → c.decode64 (c.encode64 t) ≡ ok t

module _ (lib : Libraries) (public_of : Text → Text) (sodium : IsSodium lib.sodium public_of)
    (base : Decodes lib.base)
    (payload_codec : (cek key iv rec_key t : Text)
      → lib.payloads.marshal (new_payload lib cek key iv rec_key) ≡ ok t
      → lib.payloads.unmarshal t ≡ ok (new_payload lib cek key iv rec_key)) where
  -- A message that is packed by the holder of the private key `a` for the holder of `b`, with any
  -- random values, and that arrives as the same message, unpacks for the holder of `b` to the input,
  -- if libsodium opens what it seals, base 64 decodes what it encodes, and the JSON of the protected
  -- payload reads back as what was written.
  pub unpack-pack :
      (r : Random) (input a b content : Text) (msg : AuthCryptMsg)
      → pack lib r input (public_of b) (public_of a) a ≡ ok msg
      → lib.msgs.unmarshal content ≡ ok msg
      → unpack lib content (public_of b) b ≡ ok input
  unfolding pack unpack box seal_box box_open seal_box_open encrypt_detached decrypt_detached
      new_payload
  unpack-pack r input a b content msg packed read =
      let (c, drawn, e1) = >>=-eq-ok r.cek _ packed in
      let (ep, written, e2) = >>=-eq-ok (lib.payloads.marshal _) _ e1 in
      let known = read ∙ sym e2 in
      let back = payload_codec _ _ _ _ ep written in
      simp (known, base, back, sodium.box_opens, sodium.seal_opens, sodium.decrypts)
