-- ===== src/Examples/Channels.antt =====
-- Runs of the request and reply sockets.
use didcomm_prober.Prelude.{
  ◌+◌, ◌≡◌, refl, Text, str, true, false, some, List, [], ◌∷◌, Result, ok, fail, length,
}
use didcomm_prober.Prelude.Int.{ℤ, pos, negsuc}
use didcomm_prober.Domain.{data_msg, query, terminate, msg_terminate}
use didcomm_prober.ReqRep.Server
use didcomm_prober.ReqRep.Server.{
  World, Handlrs, add_handler, remove_handler, handlr_by_typ, Received, turn, start, running,
  answer, success_res, Message, type_code,
}
use didcomm_prober.ReqRep.Client
use didcomm_prober.ReqRep.Client.{
  Link, Request, send_all, send, stop, waits, stop_waits, send_after_terminate,
}
use didcomm_prober.ReqRep.Exchange.{remove_handler_keeps, start_answers, unsent, GoesOn}
use didcomm_prober.Examples.{alice, bob}

abbrev endpoint : Text
endpoint = str "tcp://a:1"

-- The metadata is one byte, the type's number.
abbrev write_type : ℤ → Result Text
write_type (pos n) = ok (n ∷ [])
write_type (negsuc n) = fail "no type"

abbrev read_type : Text → Result ℤ
read_type (n ∷ []) = ok (pos n)
read_type _ = fail "no type"

abbrev link : Link
link = record {
  connect = λ t. ok tt;
  metadata = write_type;
  send_frames = λ ms. ok tt;
  answers = Client.unavailable ∷ Client.frames (success_res ∷ []) ∷ [];
}

abbrev quick : Link
quick = record link { answers = Client.frames (success_res ∷ []) ∷ [] }

abbrev handlers : Handlrs
handlers = add_handler query 7 false (add_handler data_msg 3 true [])

-- Every channel is read, every reply is the text of the message, and the socket sends it.
abbrev willing : World
willing = record { reads = λ n m. true; replies = λ n m. some m.body; sends = λ a. ok tt }

-- The socket is not in a state to send, as after a receive that failed.
abbrev closed : World
closed = record willing { sends = λ a. fail "operation cannot be accomplished" }

remove_handler_keeps_example :
    handlr_by_typ (pos 2) (remove_handler (str "data-message") handlers)
    ≡ handlr_by_typ (pos 2) handlers
remove_handler_keeps_example = remove_handler_keeps (pos 2) (str "data-message") handlers

abbrev arrivals : List (World × Received)
arrivals =
    (willing, Server.frames ((2 ∷ []) ∷ bob ∷ []))
    ∷ (willing, Server.frames ((4 ∷ []) ∷ alice ∷ []))
    ∷ (willing, Server.frames [])
    ∷ (closed, Server.recv_err)
    ∷ []

start_answers_example :
    ((start read_type handlers arrivals).1 ≡ running)
    × (length (start read_type handlers arrivals).0 + 1 ≡ length arrivals)
unfolding GoesOn turn Server.type_code Server.load add_handler Server.store Server.same_key unsent
start_answers_example =
    start_answers read_type handlers arrivals (refl, ((refl, (alice, refl)), (tt, (tt, tt))))

stop_waits_example : (stop link endpoint []).0 ≡ (waits, [])
stop_waits_example = stop_waits link endpoint [] refl

abbrev further : List Request
further =
    record { link = link; typ = data_msg; body = alice; endpoint = endpoint }
    ∷ record { link = quick; typ = query; body = bob; endpoint = str "tcp://b:1" }
    ∷ []

send_after_terminate_example :
    (send link data_msg bob endpoint
      (send_all further (send quick terminate msg_terminate endpoint []).1)).0
    ≡ (waits, [])
send_after_terminate_example =
    send_after_terminate quick link terminate data_msg endpoint bob further [] refl
