-- ===== src/Crypto/Packer.antt =====
-- crypto/packer.go: authcrypt messages. The random values are an argument of `Pack`.
pub mod RoundTrip
use didcomm_prober.Prelude.{Text, str, List, [], ◌∷◌, Result, ok, err, panic, fail, ◌>>=◌}
use didcomm_prober.Domain.Messages.{AuthCryptMsg, Header, Recipient, Payload, Json, BaseCodec}
use didcomm_prober.Crypto.Cipher.{
  Sodium, box, box_open, seal_box, seal_box_open, encrypt_detached, decrypt_detached,
}

-- The two decimal numbers that serve as nonces, and the answer of rand.Read.
pub record Random : Type 0 where
  pub cek_iv : Text
  pub cek : Result Text
  pub iv : Text

-- What the packer calls.
pub record Libraries : Type 0 where
  pub sodium : Sodium
  pub base : BaseCodec
  pub payloads : Json Payload
  pub msgs : Json AuthCryptMsg

first_recipient : List Recipient → Result Recipient
first_recipient [] = fail "no recipients found"
first_recipient (r ∷ rs) = ok r

module _ (lib : Libraries) where
  open lib use {sodium, base, payloads, msgs}

  unfoldable pub new_payload : Text → Text → Text → Text → Payload
  new_payload encrypted_cek encrypted_send_key cek_iv rec_pub_key = record {
    enc = str "xchacha20poly1305_ietf";
    typ = str "JWM/1.0";
    alg = str "Authcrypt";
    recipients =
        (record {
          encrypted_key = base.encode64 encrypted_cek;
          header = record {
            kid = base.encode58 rec_pub_key;
            iv = base.encode64 cek_iv;
            sender = base.encode64 encrypted_send_key;
          };
        })
        ∷ [];
  }

  unfoldable pub pack : Random → Text → Text → Text → Text → Result AuthCryptMsg
  unfolding new_payload
  pack r input rec_pub_key send_pub_key send_prv_key = do
    cek ← r.cek
    encrypted_cek ← box sodium cek r.cek_iv rec_pub_key send_prv_key
    encrypted_send_key ← seal_box sodium send_pub_key rec_pub_key
    enc_payload ←
        payloads.marshal (new_payload encrypted_cek encrypted_send_key r.cek_iv rec_pub_key)
    (cipher, mac) ← encrypt_detached sodium input enc_payload r.iv cek
    ok (record {
      protected = base.encode64 enc_payload;
      iv = base.encode64 r.iv;
      ciphertext = base.encode64 cipher;
      tag = base.encode64 mac;
    })

  unfoldable pub unpack : Text → Text → Text → Result Text
  unfolding first_recipient
  unpack content rec_pub_key rec_prv_key = do
    msg ← msgs.unmarshal content
    decoded_val ← base.decode64 msg.protected
    payload ← payloads.unmarshal decoded_val
    rec ← first_recipient payload.recipients
    decoded_send_key ← base.decode64 rec.header.sender
    send_pub_key ← seal_box_open sodium decoded_send_key rec_pub_key rec_prv_key
    decoded_cek ← base.decode64 rec.encrypted_key
    cek_iv ← base.decode64 rec.header.iv
    cek ← box_open sodium decoded_cek cek_iv send_pub_key rec_prv_key
    decoded_cipher ← base.decode64 msg.ciphertext
    mac ← base.decode64 msg.tag
    iv ← base.decode64 msg.iv
    decrypt_detached sodium decoded_cipher mac decoded_val iv cek
