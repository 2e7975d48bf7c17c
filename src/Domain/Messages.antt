-- ===== src/Domain/Messages.antt =====
-- JSON: encoding/json as a codec for each type. What the code relies on is stated where it is used,
-- as `Encodes`: the text that the value is written as is read back as the value.
use didcomm_prober.Prelude.{Text, str, List, Result, ok, ◌≡◌}

pub record Json (A : Type 0) : Type 0 where
  pub marshal : A → Result Text
  pub unmarshal : Text → Result A

abbrev pub Encodes : {A : Type 0} → Json A → A → Text → Type 0
Encodes j a t = (j.marshal a ≡ ok t) × (j.unmarshal t ≡ ok a)

-- Whatever the value is written as reads back as the value.
abbrev pub ReadsBack : {A : Type 0} → Json A → A → Type 0
ReadsBack j a = (t : Text) → j.marshal a ≡ ok t → j.unmarshal t ≡ ok a

-- domain/messages/basic.go
pub record AuthCryptMsg : Type 0 where
  pub protected : Text
  pub iv : Text
  pub ciphertext : Text
  pub tag : Text

pub record Header : Type 0 where
  pub kid : Text
  pub iv : Text
  pub sender : Text

pub record Recipient : Type 0 where
  pub encrypted_key : Text
  pub header : Header

pub record Payload : Type 0 where
  pub enc : Text
  pub typ : Text
  pub alg : Text
  pub recipients : List Recipient

-- encoding/base64 (StdEncoding), and base58 of btcutil, which answers nothing on bad input
pub record BaseCodec : Type 0 where
  pub encode64 : Text → Text
  pub decode64 : Text → Result Text
  pub encode58 : Text → Text
  pub decode58 : Text → Text

-- domain/messages/connection.go
pub record MsgService : Type 0 where
  pub id : Text
  pub typ : Text
  pub recipient_keys : List Text
  pub routing_keys : List Text
  pub service_endpoint : Text
  pub accept : List Text

pub record DidDocument : Type 0 where
  pub context : List Text
  pub id : Text
  pub services : List MsgService

-- The empty body and the attachments, which nothing sets or reads, are left out.
pub record InvitationMsg : Type 0 where
  pub id : Text
  pub typ : Text
  pub sender : Text
  pub label : Text
  pub services : List MsgService

pub record Attachment : Type 0 where
  pub id : Text
  pub mime_type : Text
  pub base64 : Text

pub record ConnReq : Type 0 where
  pub id : Text
  pub typ : Text
  pub th_id : Text
  pub pth_id : Text
  pub label : Text
  pub goal_code : Text
  pub goal : Text
  pub did : Text
  pub did_doc_attach : Attachment

pub record ConnRes : Type 0 where
  pub id : Text
  pub typ : Text
  pub th_id : Text
  pub did : Text
  pub did_doc_attach : Attachment

-- domain/messages/definitions.go
abbrev pub oob_invitation_v1 : Text
oob_invitation_v1 = str "https://didcomm.org/out-of-band/1.0/invitation"

abbrev pub did_exchange_req_v1 : Text
did_exchange_req_v1 = str "https://didcomm.org/didexchange/1.0/request"

abbrev pub did_exchange_res_v1 : Text
did_exchange_res_v1 = str "https://didcomm.org/didexchange/1.0/response"

abbrev pub discover_feat_query : Text
discover_feat_query = str "https://didcomm.org/discover-features/1.0/query"

abbrev pub discover_feat_disclose : Text
discover_feat_disclose = str "https://didcomm.org/discover-features/1.0/disclose"
