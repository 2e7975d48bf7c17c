-- ===== src/Domain/GroupMessages.antt =====
-- domain/messages/pubsub.go, and the message types of domain/messages/definitions.go that groups use.
use didcomm_prober.Prelude.{Text, str, Assoc, Bool, List}
use didcomm_prober.Domain.{Member, GroupParams}

pub record TransportKeys : Type 0 where
  pub servr_pub_key : Text
  pub client_pub_key : Text

pub record Subscribe : Type 0 where
  pub id : Text
  pub typ : Text
  pub subscribe : Bool
  pub pub_key : Text
  pub topic : Text
  pub member : Member
  pub transport : TransportKeys

pub record ResSubscribe : Type 0 where
  pub publisher : Bool
  pub transport : TransportKeys
  pub checksum : Text

pub record Status : Type 0 where
  pub id : Text
  pub typ : Text
  pub topic : Text
  pub auth_msgs : Assoc Text

pub record ReqGroupJoin : Type 0 where
  pub id : Text
  pub typ : Text
  pub label : Text
  pub topic : Text
  pub requester_inv : Text

pub record ResGroupJoin : Type 0 where
  pub id : Text
  pub typ : Text
  pub params : GroupParams
  pub members : List Member

abbrev pub subscribe_v1 : Text
subscribe_v1 = str "https://didcomm.org/pub-sub/1.0/subscribe"

abbrev pub join_request_v1 : Text
join_request_v1 = str "https://didcomm.org/pub-sub/1.0/join-request"

abbrev pub join_response_v1 : Text
join_response_v1 = str "https://didcomm.org/pub-sub/1.0/join-response"

abbrev pub member_status_v1 : Text
member_status_v1 = str "https://didcomm.org/pub-sub/1.0/status"

abbrev pub hello_protocol_v1 : Text
hello_protocol_v1 = str "https://didcomm.org/pub-sub/1.0/hello"
