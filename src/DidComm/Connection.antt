-- ===== src/DidComm/Connection.antt =====
-- didcomm/connection/handler.go: the connection request and response of the DID exchange. The random
-- ids are arguments.
use didcomm_prober.Prelude.{◌≡◌, Text, str, [], Result, ok, wrap, ◌>>=◌, arith}
use didcomm_prober.Domain.Messages.{
  AuthCryptMsg, Attachment, ConnReq, ConnRes, BaseCodec, Json, did_exchange_req_v1,
  did_exchange_res_v1,
}

-- JSON of the messages
pub record Codecs : Type 0 where
  pub base : BaseCodec
  pub msgs : Json AuthCryptMsg
  pub reqs : Json ConnReq
  pub ress : Json ConnRes

unfoldable pub attachment : BaseCodec → Text → Text → Attachment
attachment base id byts = record {
  id = id;
  mime_type = str "application/json";
  base64 = base.encode64 byts;
}

module _ (c : Codecs) where
  open c use {base, msgs, reqs, ress}

  unfoldable pub create_conn_req : Text → Text → Text → Text → Text → AuthCryptMsg → Result ConnReq
  unfolding attachment
  create_conn_req id attach_id label pth_id did enc_did_doc = do
    enc_doc_bytes ← wrap "marshalling encrypted did doc failed" (msgs.marshal enc_did_doc)
    ok (record {
      id = id;
      typ = did_exchange_req_v1;
      th_id = id;
      pth_id = pth_id;
      label = label;
      goal_code = [];
      goal = str "connection establishment";
      did = did;
      did_doc_attach = attachment base attach_id enc_doc_bytes;
    })

  -- label, thread id, DID, and the encrypted DID document
  unfoldable pub parse_conn_req : Text → Result (Text × Text × Text × Text)
  parse_conn_req content = do
    req ← wrap "unmarshalling connection request failed" (reqs.unmarshal content)
    enc_doc_bytes ← wrap "decoding did doc failed" (base.decode64 req.did_doc_attach.base64)
    ok (req.label, req.th_id, req.did, enc_doc_bytes)

  unfoldable pub create_conn_res : Text → Text → Text → Text → AuthCryptMsg → Result ConnRes
  unfolding attachment
  create_conn_res id attach_id pth_id did enc_did_doc = do
    enc_doc_bytes ← wrap "marshalling encrypted did doc failed" (msgs.marshal enc_did_doc)
    ok (record {
      id = id;
      typ = did_exchange_res_v1;
      th_id = pth_id;
      did = did;
      did_doc_attach = attachment base attach_id enc_doc_bytes;
    })

  unfoldable pub parse_conn_res : Text → Result (Text × Text)
  parse_conn_res content = do
    res ← wrap "unmarshalling connection response failed" (ress.unmarshal content)
    enc_doc_bytes ← wrap "decoding did doc failed" (base.decode64 res.did_doc_attach.base64)
    ok (res.th_id, enc_doc_bytes)

  module _ (decodes : (t : Text) → base.decode64 (base.encode64 t) ≡ ok t) where
    -- The receiver of a connection request reads the label, the request's own id as the thread, the
    -- DID and the marshalled DID document that the sender put in, if the request arrives as it was
    -- made and base 64 decodes what it encodes.
    pub parse-create_conn_req :
        (id attach_id label pth_id did content doc : Text) (enc : AuthCryptMsg) (req : ConnReq)
        → msgs.marshal enc ≡ ok doc
        → create_conn_req id attach_id label pth_id did enc ≡ ok req
        → reqs.unmarshal content ≡ ok req
        → parse_conn_req content ≡ ok (label, id, did, doc)
    unfolding create_conn_req parse_conn_req
    parse-create_conn_req id attach_id label pth_id did content doc enc req written made read =
        ground (arith, decodes doc)

    -- The receiver of a connection response reads the thread that it answers and the document, if the
    -- response arrives as it was made and base 64 decodes what it encodes.
    pub parse-create_conn_res :
        (id attach_id pth_id did content doc : Text) (enc : AuthCryptMsg) (res : ConnRes)
        → msgs.marshal enc ≡ ok doc
        → create_conn_res id attach_id pth_id did enc ≡ ok res
        → ress.unmarshal content ≡ ok res
        → parse_conn_res content ≡ ok (pth_id, doc)
    unfolding create_conn_res parse_conn_res
    parse-create_conn_res id attach_id pth_id did content doc enc res written made read =
        ground (arith, decodes doc)
