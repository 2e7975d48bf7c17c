-- ===== src/ReqRep/Client.antt =====
-- reqrep/zmq/client.go: one sender per endpoint, started by the first message to it, and `Stop` of
-- reqrep/zmq/server.go, which sends through the client.
use didcomm_prober.Prelude.{
  ◌≡◌, refl, ap, arith, Result-cases, eq_iff, Text, ◌==◌, eq_refl, Assoc, lookup, insert,
  lookup-insert, Option-cases, Bool-cases, inl, inr, Bool, true, false, Option, none, some, List,
  [], ◌∷◌, Result, ok, err, panic, fail, wrap, if◌then◌else◌,
}
use didcomm_prober.Prelude.Int.{ℤ}
use didcomm_prober.Domain.{MsgType, terminate, msg_terminate}
use didcomm_prober.ReqRep.Server.{type_code, failed_res}

-- what RecvMessage of the sender's socket returns; `unavailable` is retried
pub data Answer : Type 0 where
  unavailable : Answer
  recv_err : Answer
  frames : List Text → Answer

-- What the client calls and does not implement, for one message to one endpoint.
pub record Link : Type 0 where
  -- NewSocket and Connect
  pub connect : Text → Result (Unit {0})
  pub metadata : ℤ → Result Text
  pub send_frames : List Text → Result (Unit {0})
  -- the answers of RecvMessage, one after the other
  pub answers : List Answer

-- chanMap: the endpoints that a sender was started for, and whether its goroutine still reads.
abbrev pub Client : Type 0
Client = Assoc Bool

-- What `Send` comes to: a result, a wait that never ends, or the end of the process.
pub data Sent : Type 0 where
  returned : Result Text → Sent
  waits : Sent
  exits : Sent

unfoldable pub first_frame : List Text → Result Text
first_frame [] = fail "received an empty message"
first_frame (m ∷ ms) = if m == failed_res then fail "received an error message" else ok m

-- the `receive` loop; `none` when no answer comes
unfoldable pub receive : List Answer → Option (Result Text)
unfolding first_frame
receive [] = none
receive (unavailable ∷ rest) = receive rest
receive (recv_err ∷ rest) = some (fail "receiving zmq message by sender failed")
receive (frames ms ∷ rest) = some (first_frame ms)

unfoldable pub respond : Option (Result Text) → Sent
respond none = waits
respond (some r) = returned (wrap "send error" r)

-- A turn of the sender's loop past the check for termination, with the frames it puts on the wire.
unfoldable pub on_sent : List Text → List Answer → Result (Unit {0}) → Sent × List (List Text)
unfolding respond receive
on_sent ms rest (ok u) = (respond (receive rest), ms ∷ [])
on_sent ms rest (err e) = (respond (some (err ("sending zmq message by sender failed" ∷ e))), [])
on_sent ms rest panic = (respond (some panic), [])

unfoldable pub on_meta : Link → Text → Result Text → Sent × List (List Text)
unfolding on_sent
on_meta l body (ok md) = on_sent (md ∷ body ∷ []) l.answers (l.send_frames (md ∷ body ∷ []))
on_meta l body (err e) = (respond (some (err ("marshalling metadata failed" ∷ e))), [])
on_meta l body panic = (respond (some panic), [])

-- `inChan <- req` to a sender that reads. The terminating body ends its goroutine: the sender stays in
-- the map, and the caller's `<-resChan` gets nothing.
unfoldable pub to_sender :
    Link → MsgType → Text → Text → Client → (Sent × List (List Text)) × Client
unfolding on_meta
to_sender l typ body endpoint c =
    if body == msg_terminate
    then ((waits, []), insert endpoint false c)
    else (on_meta l body (l.metadata (type_code typ)), insert endpoint true c)

unfoldable pub start_sender :
    Link → MsgType → Text → Text → Client → Result (Unit {0}) → (Sent × List (List Text)) × Client
unfolding to_sender
start_sender l typ body endpoint c (ok u) = to_sender l typ body endpoint c
start_sender l typ body endpoint c (err e) = ((exits, []), c)
start_sender l typ body endpoint c panic = ((exits, []), c)

-- `Send`; a sender whose goroutine has ended reads nothing more.
unfoldable pub send : Link → MsgType → Text → Text → Client → (Sent × List (List Text)) × Client
unfolding start_sender to_sender
send l typ body endpoint c = elim (lookup endpoint c) [
  | none ↦ start_sender l typ body endpoint c (l.connect endpoint)
  | some alive ↦ if alive then to_sender l typ body endpoint c else ((waits, []), c)
]

-- `Close`: the terminating data to every sender; a sender that has ended blocks it.
unfoldable pub close : Client → Option Client
close [] = some []
close ((endpoint, alive) ∷ c) =
    let rest = close c in
    if alive then elim rest [ none ↦ none | some c' ↦ some ((endpoint, false) ∷ c') ] else none

-- `Server.Stop`
unfoldable pub stop : Link → Text → Client → (Sent × List (List Text)) × Client
stop l endpoint c = send l terminate msg_terminate endpoint c

waits_on :
    (k : Link) (mt : MsgType) (endpoint body : Text) (d : Client)
    → lookup endpoint d ≡ some false
    → (send k mt body endpoint d).0 ≡ (waits, [])
unfolding send
waits_on k mt endpoint body d g = rw (g, send) refl

-- The terminating data ends the sender of its endpoint, waits, and puts nothing on the wire.
send_terminate :
    (l : Link) (typ : MsgType) (endpoint : Text) (c : Client)
    → l.connect endpoint ≡ ok tt
    → ((send l typ msg_terminate endpoint c).0 ≡ (waits, []))
      × (lookup endpoint (send l typ msg_terminate endpoint c).1 ≡ some false)
unfolding send start_sender to_sender
send_terminate l typ endpoint c h = elim (Option-cases (lookup endpoint c)) [
  | inl e ↦ (
    rw (e, send, h, start_sender, to_sender, eq_refl msg_terminate) refl,
    rw
        (
          e,
          send,
          h,
          start_sender,
          to_sender,
          eq_refl msg_terminate,
          lookup-insert endpoint endpoint false c,
          eq_refl endpoint,
        )
        refl,
  )
  | inr (alive, e) ↦ elim (Bool-cases alive) [
    | inl t ↦ (
      rw (e, t, send, to_sender, eq_refl msg_terminate) refl,
      rw
          (
            e,
            t,
            send,
            to_sender,
            eq_refl msg_terminate,
            lookup-insert endpoint endpoint false c,
            eq_refl endpoint,
          )
          refl,
    )
    | inr f ↦ (rw (e, f, send) refl, rw (e, f, send, e) (ap some f))
  ]
]

-- A server's own `Stop`, where the process can connect to the server's endpoint, never comes back
-- and puts no frame on the wire, so that the server's loop is not told to end.
pub stop_waits :
    (l : Link) (endpoint : Text) (c : Client)
    → l.connect endpoint ≡ ok tt
    → (stop l endpoint c).0 ≡ (waits, [])
unfolding stop
stop_waits l endpoint c h = (send_terminate l terminate endpoint c h).0

-- A message to be sent, with what the client calls for it.
pub record Request : Type 0 where
  pub link : Link
  pub typ : MsgType
  pub body : Text
  pub endpoint : Text

-- the calls of `Send`, one after the other
unfoldable pub send_all : List Request → Client → Client
send_all [] c = c
send_all (r ∷ rs) c = send_all rs (send r.link r.typ r.body r.endpoint c).1

-- A sender that has ended is not started again, whatever is sent to any endpoint.
send_ended :
    (l : Link) (mt : MsgType) (body to endpoint : Text) (c : Client)
    → lookup endpoint c ≡ some false
    → lookup endpoint (send l mt body to c).1 ≡ some false
unfolding send start_sender to_sender
send_ended l mt body to endpoint c ended = elim (Bool-cases (to == endpoint)) [
  | inl here ↦
      let same : to ≡ endpoint = ground (arith, eq_iff to endpoint, here) in
      let found : lookup to c ≡ some false = rw same ended in rw (found, send) ended
  | inr there ↦ elim (Option-cases (lookup to c)) [
    | inr (alive, e) ↦ elim (Bool-cases alive) [
      | inl t ↦ ground (
        arith,
        e,
        t,
        ended,
        there,
        lookup-insert to endpoint false c,
        lookup-insert to endpoint true c,
      )
      | inr f ↦ rw (e, f, send) ended
    ]
    | inl e ↦ elim (Result-cases (l.connect to)) [
      | inl (u, h) ↦ ground (
        arith,
        e,
        h,
        ended,
        there,
        lookup-insert to endpoint false c,
        lookup-insert to endpoint true c,
      )
      | inr (inl (w, h)) ↦ rw (e, send, h, start_sender) ended
      | inr (inr h) ↦ rw (e, send, h, start_sender) ended
    ]
  ]
]

send_all_ended :
    (rs : List Request) (endpoint : Text) (c : Client)
    → lookup endpoint c ≡ some false
    → lookup endpoint (send_all rs c) ≡ some false
unfolding send_all
send_all_ended [] endpoint c ended = ended
send_all_ended (r ∷ rs) endpoint c ended =
    send_all_ended rs endpoint (send r.link r.typ r.body r.endpoint c).1
      (send_ended r.link r.typ r.body r.endpoint endpoint c ended)

-- Once the terminating data was sent to an endpoint that the process can connect to, and after any
-- further calls of Send to any endpoints, a message to it, of any type and with any data, waits for
-- ever and is not put on the wire.
pub send_after_terminate :
    (l k : Link) (typ mt : MsgType) (endpoint body : Text) (rs : List Request) (c : Client)
    → l.connect endpoint ≡ ok tt
    → (send k mt body endpoint (send_all rs (send l typ msg_terminate endpoint c).1)).0
      ≡ (waits, [])
send_after_terminate l k typ mt endpoint body rs c h =
    let ended = (send_terminate l typ endpoint c h).1 in
    waits_on k mt endpoint body (send_all rs (send l typ msg_terminate endpoint c).1)
      (send_all_ended rs endpoint (send l typ msg_terminate endpoint c).1 ended)
