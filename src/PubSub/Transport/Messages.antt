-- ===== src/PubSub/Transport/Messages.antt =====
-- pubsub/transport/messages.go and definitions.go: what the group agent asks of the two listeners. A
-- request has two reply channels, which travel as their ids.
use didcomm_prober.Prelude.{Text, str, Bool}
use didcomm_prober.Domain.{Member, Role}

abbrev pub topic_connect : Text
topic_connect = str "internal-connect"

abbrev pub topic_subscribe : Text
topic_subscribe = str "internal-subscribe"

abbrev pub topic_authenticate : Text
topic_authenticate = str "internal-authenticate"

abbrev pub topic_term : Text
topic_term = str "internal-terminate"

pub record Initiator : Type 0 where
  pub role : Role
  pub label : Text

-- the ids of the reply channels for the state and for the data listener
pub record ReplyIds : Type 0 where
  pub state : Text
  pub content : Text

pub record ConnectMsg : Type 0 where
  pub connect : Bool
  pub initiator : Initiator
  pub topic : Text
  pub peer : Member
  pub reply : ReplyIds

pub record SubscribeMsg : Type 0 where
  pub subscribe : Bool
  pub unsub_all : Bool
  pub my_label : Text
  pub topic : Text
  pub state : Bool
  pub content : Bool
  pub peer : Member
  pub reply : ReplyIds

pub record AuthMsg : Type 0 where
  pub label : Text
  pub servr_pub_key : Text
  pub client_pub_key : Text
  pub content : Bool
  pub reply : ReplyIds

pub record PublishMsg : Type 0 where
  pub topic : Text
  pub content : Text
