-- ===== src/Examples/Packing.antt =====
-- A run of the packer, with ciphers that leave a text as it is.
use didcomm_prober.Prelude.{◌≡◌, refl, ap, zero, suc, ok-eq, Text, str, List, [], ◌∷◌, ok}
use didcomm_prober.Prelude.Int.{pos}
use didcomm_prober.Domain.Messages.{ReadsBack, AuthCryptMsg, Payload, Recipient, BaseCodec}
use didcomm_prober.Crypto.Cipher.{Sodium, box, seal_box, encrypt_detached}
use didcomm_prober.Crypto.Packer.{Random, Libraries, pack, unpack, new_payload}
use didcomm_prober.Crypto.Packer.RoundTrip.{IsSodium, unpack-pack}
use didcomm_prober.Examples.{alice, bob}

abbrev pub plain : BaseCodec
plain = record { encode64 = λ t. t; decode64 = λ t. ok t; encode58 = λ t. t; decode58 = λ t. t }

-- ciphers that leave a text as it is
abbrev pub open_sodium : Sodium
open_sodium = record {
  box_easy = λ m n pk sk. (m, pos 0);
  box_open_easy = λ c n pk sk. (c, pos 0);
  box_seal = λ m pk. (m, pos 0);
  box_seal_open = λ c pk sk. (c, pos 0);
  aead_encrypt = λ m ad n k. (m, []);
  aead_decrypt = λ c mac ad n k. ok c;
  aead_nonce_bytes = 12;
  aead_key_bytes = 32;
}

pub open_sodium-IsSodium : IsSodium open_sodium (λ t. t)
open_sodium-IsSodium = record {
  box_opens = λ m n a b. refl;
  seal_opens = λ m b. refl;
  decrypts = λ m ad n k. refl;
}

-- A text is written with each byte one higher, and ends with a zero.
abbrev pub write_field : Text → Text → Text
write_field [] rest = 0 ∷ rest
write_field (b ∷ t) rest = suc b ∷ write_field t rest

abbrev pub read_field : Text → Text × Text
read_field [] = ([], [])
read_field (zero ∷ t) = ([], t)
read_field (suc b ∷ t) = let (field, rest) = read_field t in (b ∷ field, rest)

read-write_field : (t rest : Text) → read_field (write_field t rest) ≡ (t, rest)
read-write_field [] rest = refl
read-write_field (b ∷ t) rest = rw (read-write_field t rest) refl

abbrev pub write_four : Text → Text → Text → Text → Text
write_four a b c d = write_field a (write_field b (write_field c (write_field d [])))

abbrev pub read_four : Text → Text × Text × Text × Text
read_four t =
    let (a, t1) = read_field t in
    let (b, t2) = read_field t1 in let (c, t3) = read_field t2 in (a, b, c, (read_field t3).0)

read-write_four : (a b c d : Text) → read_four (write_four a b c d) ≡ (a, b, c, d)
read-write_four a b c d = simp read-write_field

abbrev write_recipients : List Recipient → Text
write_recipients [] = []
write_recipients (r ∷ rs) = write_four r.encrypted_key r.header.kid r.header.iv r.header.sender

abbrev payload_with : Text × Text × Text × Text → Payload
payload_with (key, kid, iv, sender) = record {
  enc = str "xchacha20poly1305_ietf";
  typ = str "JWM/1.0";
  alg = str "Authcrypt";
  recipients =
      (record { encrypted_key = key; header = record { kid = kid; iv = iv; sender = sender } })
      ∷ [];
}

abbrev msg_with : Text × Text × Text × Text → AuthCryptMsg
msg_with (p, i, c, t) = record { protected = p; iv = i; ciphertext = c; tag = t }

abbrev pub libs_over : BaseCodec → Libraries
libs_over base = record {
  sodium = open_sodium;
  base = base;
  payloads = record {
    marshal = λ p. ok (write_recipients p.recipients);
    unmarshal = λ t. ok (payload_with (read_four t));
  };
  msgs = record {
    marshal = λ m. ok (write_four m.protected m.iv m.ciphertext m.tag);
    unmarshal = λ t. ok (msg_with (read_four t));
  };
}

abbrev pub libs : Libraries
libs = libs_over plain

pub payloads_read :
    (base : BaseCodec) (cek key iv rec_key t : Text)
    → (libs_over base).payloads.marshal (new_payload (libs_over base) cek key iv rec_key) ≡ ok t
    → (libs_over base).payloads.unmarshal t ≡ ok (new_payload (libs_over base) cek key iv rec_key)
unfolding new_payload
payloads_read base cek key iv rec_key t h =
    let e : write_four (base.encode64 cek) (base.encode58 rec_key) (base.encode64 iv)
          (base.encode64 key)
        ≡ t =
      cc in
    rw (← e) (
      ap (λ x. ok (payload_with x))
        (read-write_four (base.encode64 cek) (base.encode58 rec_key) (base.encode64 iv)
          (base.encode64 key)))

pub msgs_read : (base : BaseCodec) (m : AuthCryptMsg) → ReadsBack (libs_over base).msgs m
msgs_read base m t h =
    rw (← ok-eq h) (ap (λ x. ok (msg_with x)) (read-write_four m.protected m.iv m.ciphertext m.tag))

abbrev pub random : Random
random = record { cek_iv = str "7"; cek = ok (str "k"); iv = str "9" }

abbrev pub protected_text : Text
protected_text = write_four (str "k") bob (str "7") alice

abbrev pub msg : AuthCryptMsg
msg = msg_with (protected_text, str "9", str "hello", [])

unpack-pack_example :
    unpack libs (write_four protected_text (str "9") (str "hello") []) bob bob ≡ ok (str "hello")
unfolding pack box seal_box encrypt_detached
unpack-pack_example =
    unpack-pack libs (λ t. t) open_sodium-IsSodium (λ t. refl) (payloads_read plain) random
      (str "hello") alice bob (write_four protected_text (str "9") (str "hello") []) msg refl refl
