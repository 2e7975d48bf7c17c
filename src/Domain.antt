-- ===== src/Domain.antt =====
-- domain/definitions.go and domain/models: modes, roles, message types, and the structures that
-- the components exchange.
pub mod Messages
pub mod GroupMessages
use didcomm_prober.Prelude.{ℕ, Text, str, ◌==◌, Bool, true, false, Option, List, if◌then◌else◌}
use didcomm_prober.Prelude.Int.{ℤ}

abbrev pub servc_did_exchange : Text
servc_did_exchange = str "did-exchange-service"

abbrev pub servc_message : Text
servc_message = str "message-service"

abbrev pub servc_group_join : Text
servc_group_join = str "group-join-service"

abbrev pub topic_prefix : Text
topic_prefix = str "urn:didcomm-queue:"

abbrev pub hello_prefix : Text
hello_prefix = str "hello_"

abbrev pub msg_terminate : Text
msg_terminate = str "terminate-zcomm"

abbrev pub retry_count : ℕ
retry_count = 10

-- `type GroupMode string`
abbrev pub GroupMode : Type 0
GroupMode = Text

abbrev pub single_queue_mode : GroupMode
single_queue_mode = str "single-queue"

abbrev pub multiple_queue_mode : GroupMode
multiple_queue_mode = str "multiple-queue"

-- GroupMode.Valid
unfoldable pub valid_mode : GroupMode → Bool
valid_mode g =
    if g == single_queue_mode then true else if g == multiple_queue_mode then true else false

pub data Role : Type 0 where
  publisher subscriber null : Role

-- `type MsgType int`: an integer that no constant names is `undefined`.
pub data MsgType : Type 0 where
  conn_req conn_res data_msg subscribe query group_join group_status group_msg : MsgType
  status_ack terminate : MsgType
  undefined : ℤ → MsgType

pub MsgType-discrete : Discrete ℤ → Discrete MsgType
MsgType-discrete d = hlevel d

pub record Service : Type 0 where
  pub id : Text
  pub typ : Text
  pub endpoint : Text
  pub pub_key : Text

pub record Peer : Type 0 where
  pub active : Bool
  pub did : Text
  pub exchange_th_id : Text
  pub services : List Service

pub record Feature : Type 0 where
  pub id : Text
  pub roles : List Text

pub record Member : Type 0 where
  pub active : Bool
  pub publisher : Bool
  pub label : Text
  pub inv : Text
  pub pub_endpoint : Text

pub record GroupParams : Type 0 where
  pub order_enabled : Bool
  pub join_consistent : Bool
  pub mode : GroupMode
