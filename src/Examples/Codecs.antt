-- ===== src/Examples/Codecs.antt =====
-- A world for two probers: JSON that writes the fields one after the other, and ciphers that leave a
-- text as it is.
use didcomm_prober.Prelude.{
  ◌≡◌, refl, ap, ℕ, zero, suc, Text, str, List, [], ◌∷◌, ◌++◌, map, none, Result, ok, fail, arith,
}
use didcomm_prober.Prelude.Buffers.{HasNoNul}
use didcomm_prober.Domain.Messages.{
  BaseCodec, MsgService, DidDocument, InvitationMsg, ConnReq, ConnRes, Attachment,
  did_exchange_req_v1, did_exchange_res_v1, oob_invitation_v1,
}
use didcomm_prober.Crypto.Packer.RoundTrip.{Decodes}
use didcomm_prober.Prober.Agent.{Prober, Env, Fresh}
use didcomm_prober.Prober.Agent.Exchange.Documents.{IsFaithful}
use didcomm_prober.Examples.Packing.{
  libs_over, payloads_read, open_sodium-IsSodium, write_field, read_field, random,
}

abbrev lower : ℕ → ℕ
lower zero = zero
lower (suc b) = b

-- Each byte is written one higher, so that none is zero.
abbrev pub stepped : BaseCodec
stepped = record {
  encode64 = map suc;
  decode64 = λ t. ok (map lower t);
  encode58 = λ t. t;
  decode58 = λ t. t;
}

lower-suc : (t : Text) → map lower (map suc t) ≡ t
lower-suc [] = refl
lower-suc (b ∷ t) = ap (◌∷◌ b) (lower-suc t)

stepped-Decodes : Decodes stepped
stepped-Decodes t = ap ok (lower-suc t)

stepped-HasNoNul : (t : Text) → HasNoNul (map suc t)
stepped-HasNoNul [] = tt
stepped-HasNoNul (b ∷ t) = ((λ h. ground arith), stepped-HasNoNul t)

pub laws : IsFaithful (libs_over stepped) (λ t. t)
laws = record {
  sodium = open_sodium-IsSodium;
  decodes = stepped-Decodes;
  decodes_58 = λ t. refl;
  clean = stepped-HasNoNul;
  payloads = payloads_read stepped;
}

abbrev read_fields : ℕ → Text → List Text
read_fields zero t = []
read_fields (suc n) t = let (field, rest) = read_field t in field ∷ read_fields n rest

abbrev write_fields : List Text → Text
write_fields [] = []
write_fields (t ∷ ts) = write_field t (write_fields ts)

abbrev service_of : Text → Text → Text → Text → MsgService
service_of id typ key endpoint = record {
  id = id;
  typ = typ;
  recipient_keys = key ∷ [];
  routing_keys = [];
  service_endpoint = endpoint;
  accept = [];
}

abbrev fields_of : MsgService → List Text
fields_of s = s.id ∷ s.typ ∷ (s.recipient_keys ++ s.service_endpoint ∷ [])

abbrev services_of : List MsgService → List Text
services_of [] = []
services_of (s ∷ ss) = fields_of s ++ services_of ss

abbrev doc_of : List Text → Result DidDocument
doc_of (a ∷ b ∷ c ∷ d ∷ i ∷ j ∷ k ∷ l ∷ []) =
    ok (record { context = []; id = []; services = service_of a b c d ∷ service_of i j k l ∷ [] })
doc_of _ = fail "not a document"

abbrev inv_of : List Text → Result InvitationMsg
inv_of (id ∷ label ∷ a ∷ b ∷ c ∷ d ∷ []) = ok (record {
  id = id;
  typ = oob_invitation_v1;
  sender = [];
  label = label;
  services = service_of a b c d ∷ [];
})
inv_of _ = fail "not an invitation"

abbrev attached : Text → Text → Attachment
attached id byts = record { id = id; mime_type = str "application/json"; base64 = byts }

abbrev req_of : List Text → Result ConnReq
req_of (id ∷ pth ∷ label ∷ did ∷ a ∷ b ∷ []) = ok (record {
  id = id;
  typ = did_exchange_req_v1;
  th_id = id;
  pth_id = pth;
  label = label;
  goal_code = [];
  goal = str "connection establishment";
  did = did;
  did_doc_attach = attached a b;
})
req_of _ = fail "not a request"

abbrev res_of : List Text → Result ConnRes
res_of (id ∷ th ∷ did ∷ a ∷ b ∷ []) = ok (record {
  id = id;
  typ = did_exchange_res_v1;
  th_id = th;
  did = did;
  did_doc_attach = attached a b;
})
res_of _ = fail "not a response"

abbrev pub env : Env
env = record {
  libs = libs_over stepped;
  hostname = str "http://";
  url = record { url_encode = λ t. t; url_decode = λ t. ok t };
  docs = record {
    marshal = λ d. ok (write_fields (services_of d.services));
    unmarshal = λ t. doc_of (read_fields 8 t);
  };
  invs = record {
    marshal = λ i. ok (map suc (write_fields (i.id ∷ i.label ∷ services_of i.services)));
    unmarshal = λ t. inv_of (read_fields 6 (map lower t));
  };
  reqs = record {
    marshal = λ r. ok (
        write_fields
          (r.id ∷ r.pth_id ∷ r.label ∷ r.did ∷ r.did_doc_attach.id ∷ r.did_doc_attach.base64 ∷ []));
    unmarshal = λ t. req_of (read_fields 6 t);
  };
  ress = record {
    marshal = λ r. ok (
        write_fields (r.id ∷ r.th_id ∷ r.did ∷ r.did_doc_attach.id ∷ r.did_doc_attach.base64 ∷ []));
    unmarshal = λ t. res_of (read_fields 5 t);
  };
  sha256 = λ t. [];
  send = λ typ content endpoint. ok [];
}

abbrev pub starting : Text → Text → Prober
starting label endpoint = record {
  label = label;
  inv_endpoint = endpoint;
  exch_endpoint = endpoint;
  grp_join_endpoint = endpoint;
  ks = record { inv_pub_key = none; inv_prv_key = none; key_store = [] };
  peers = [];
  did_store = record { did_map = []; did_doc_map = [] };
}

abbrev pub drawing : Text → Fresh
drawing key = record {
  id = str "1";
  id_2 = str "2";
  id_3 = str "3";
  id_4 = str "4";
  pair = ok (record { public = key; private = key });
  random = random;
}
