-- ===== src/ReqRep/Server.antt =====
-- reqrep/zmq/server.go: the loop that receives requests, hands them to the handlers and answers.
-- A message type travels as the integer that models.MsgType is.
use didcomm_prober.Prelude.{
  ℕ, Text, str, ◌==◌, Bool, false, Option, none, some, List, [], ◌∷◌, Result, ok, err, panic, fail,
  from_option, if◌then◌else◌,
}
use didcomm_prober.Prelude.Int.{ℤ, pos, eq_int}
use didcomm_prober.Domain.{
  MsgType, conn_req, conn_res, data_msg, subscribe, query, group_join, group_status, group_msg,
  status_ack, terminate, undefined,
}

-- the constants of models.MsgType, `iota`
unfoldable pub type_code : MsgType → ℤ
type_code conn_req = pos 0
type_code conn_res = pos 1
type_code data_msg = pos 2
type_code subscribe = pos 3
type_code query = pos 4
type_code group_join = pos 5
type_code group_status = pos 6
type_code group_msg = pos 7
type_code status_ack = pos 8
type_code terminate = pos 9
type_code (undefined n) = n

abbrev pub success_res : Text
success_res = str "success"

abbrev pub failed_res : Text
failed_res = str "failed"

-- models.Message, its reply channel left out
pub record Message : Type 0 where
  pub typ : ℤ
  pub body : Text

-- `notifier` is the channel that a handler reads, by a number.
pub record Handler : Type 0 where
  pub async : Bool
  pub notifier : ℕ

-- A key of the sync.Map holds its Go type: a message type and a string are different keys.
pub data Key : Type 0 where
  typed : ℤ → Key
  named : Text → Key

unfoldable pub same_key : Key → Key → Bool
same_key (typed a) (typed b) = eq_int a b
same_key (typed a) (named t) = false
same_key (named s) (typed b) = false
same_key (named s) (named t) = s == t

abbrev pub Handlrs : Type 0
Handlrs = List (Key × Handler)

unfoldable pub load : Key → Handlrs → Option Handler
load k [] = none
load k ((j, h) ∷ hs) = if same_key j k then some h else load k hs

unfoldable pub store : Key → Handler → Handlrs → Handlrs
store k h [] = (k, h) ∷ []
store k h ((j, g) ∷ hs) = if same_key j k then (k, h) ∷ hs else (j, g) ∷ store k h hs

unfoldable pub delete : Key → Handlrs → Handlrs
delete k [] = []
delete k ((j, h) ∷ hs) = let rest = delete k hs in if same_key j k then rest else (j, h) ∷ rest

unfoldable pub add_handler : MsgType → ℕ → Bool → Handlrs → Handlrs
add_handler mt notifier async hs =
    store (typed (type_code mt)) (record { async = async; notifier = notifier }) hs

-- its argument is a string, as in the source
unfoldable pub remove_handler : Text → Handlrs → Handlrs
remove_handler msg_type hs = delete (named msg_type) hs

unfoldable pub handlr_by_typ : ℤ → Handlrs → Result Handler
handlr_by_typ typ hs = from_option "no handler found for message type" (load (typed typ) hs)

-- what RecvMessage returns
pub data Received : Type 0 where
  recv_err : Received
  frames : List Text → Received

-- What one turn of the loop does: an answer, after a message was handed over or not; a message
-- handed over with a channel whose reply is then awaited; or the end of the loop.
pub data Action : Type 0 where
  answer : Option (ℕ × Message) → Text → Action
  await : ℕ → Message → Action
  stop : Action

-- sendAck: the answer to a failure or a success
unfoldable pub send_ack : {A : Type 0} → Option (ℕ × Message) → Result A → Action
send_ack m (ok a) = answer m success_res
send_ack m (err e) = answer m failed_res
send_ack m panic = answer m failed_res

unfoldable pub hand_over : Message → Handler → Action
unfolding send_ack
hand_over m h = if h.async then send_ack (some (h.notifier, m)) (ok tt) else await h.notifier m

unfoldable pub on_handler : Message → Result Handler → Action
unfolding hand_over send_ack
on_handler m (ok h) = hand_over m h
on_handler m (err e) = send_ack {A = Handler} none (err ("fetching handler failed" ∷ e))
on_handler m panic = send_ack {A = Handler} none panic

unfoldable pub on_metadata : Text → Handlrs → Result ℤ → Action
unfolding on_handler send_ack handlr_by_typ
on_metadata body hs (ok typ) =
    if eq_int typ (type_code terminate)
    then stop
    else on_handler (record { typ = typ; body = body }) (handlr_by_typ typ hs)
on_metadata body hs (err e) = send_ack {A = ℤ} none (err ("unmarshalling metadata failed" ∷ e))
on_metadata body hs panic = send_ack {A = ℤ} none panic

-- one turn; `metadata` is json.Unmarshal of the first frame
unfoldable pub turn : (Text → Result ℤ) → Handlrs → Received → Action
unfolding on_metadata send_ack
turn metadata hs recv_err = send_ack {A = ℤ} none (fail "receiving zmq message by receiver failed")
turn metadata hs (frames (md ∷ body ∷ [])) = on_metadata body hs (metadata md)
turn metadata hs (frames ms) = send_ack {A = ℤ} none (fail "received an empty/invalid message")

pub data Status : Type 0 where
  running stopped waiting : Status

-- What meets a turn of the loop: whether the reader of a channel takes a message, what it puts on the
-- reply channel, none if it never does, and what the socket answers to Send.
pub record World : Type 0 where
  pub reads : ℕ → Message → Bool
  pub replies : ℕ → Message → Option Text
  pub sends : Text → Result (Unit {0})

-- skt.Send, whose error is logged
unfoldable pub send_res : Text → Result (Unit {0}) → List Text × Status → List Text × Status
send_res a (ok u) (sent, st) = (a ∷ sent, st)
send_res a (err e) rest = rest
send_res a panic rest = rest

-- `<-m.Reply`: the reply, or the loop waits for ever
unfoldable pub reply_or_wait : World → Option Text → List Text × Status → List Text × Status
unfolding send_res
reply_or_wait w (some r) rest = send_res r (w.sends r) rest
reply_or_wait w none rest = ([], waiting)

-- What the loop does, before the turns that follow. A channel that nobody reads blocks it.
unfoldable pub perform : World → Action → List Text × Status → List Text × Status
unfolding reply_or_wait send_res
perform w (answer none a) rest = send_res a (w.sends a) rest
perform w (answer (some (n, m)) a) rest =
    if w.reads n m then send_res a (w.sends a) rest else ([], waiting)
perform w (await n m) rest =
    if w.reads n m then reply_or_wait w (w.replies n m) rest else ([], waiting)
perform w stop rest = ([], stopped)

-- `Start`: the answers that are sent for the messages that arrive, and what the loop is doing after
-- them.
unfoldable pub start : (Text → Result ℤ) → Handlrs → List (World × Received) → List Text × Status
unfolding perform
start metadata hs [] = ([], running)
start metadata hs ((w, r) ∷ rs) = perform w (turn metadata hs r) (start metadata hs rs)
