-- ===== src/ReqRep/Exchange.antt =====
-- reqrep/zmq: what holds of a request and its reply, from the client's call to the server's loop.
use didcomm_prober.Prelude.{
  ℕ, ◌≡◌, ◌≢◌, refl, suc, Text, eq_refl, ◌∙◌, true, false, some, List, [], ◌∷◌, arith, length, All,
  Result, ok, err, panic, wrap, is_ok, false, none, ◌+◌, if◌then◌else◌, Bool-cases, inl, inr,
}
use didcomm_prober.Prelude.Int.{ℤ, eq_int_refl}
use didcomm_prober.ReqRep.Server
use didcomm_prober.ReqRep.Client
use didcomm_prober.ReqRep.Client.{Client, receive, first_frame}
use didcomm_prober.ReqRep.Server.{
  Handler, Handlrs, Key, typed, named, same_key, load, store, delete, add_handler, remove_handler,
  handlr_by_typ, Message, Received, Action, answer, await, stop, turn, start, running, Status,
  World, send_res, perform, reply_or_wait, failed_res,
}

same_key_refl : (k : Key) → same_key k k ≡ true
unfolding same_key
same_key_refl (typed a) = eq_int_refl a
same_key_refl (named t) = eq_refl t

load-store : (k : Key) (h : Handler) (hs : Handlrs) → load k (store k h hs) ≡ some h
unfolding load store
load-store k h [] = rw (same_key_refl k) refl
load-store k h ((j, g) ∷ hs) = elim (Bool-cases (same_key j k)) [
  | inl t ↦ rw (t, load, same_key_refl k) refl
  | inr f ↦ rw (f, load, f) (load-store k h hs)
]

load-delete :
    (t : ℤ) (name : Text) (hs : Handlrs)
    → load (typed t) (delete (named name) hs) ≡ load (typed t) hs
unfolding load delete same_key
load-delete t name [] = refl
load-delete t name ((typed a, h) ∷ hs) = ground (arith, load-delete t name hs)
load-delete t name ((named s, h) ∷ hs) = ground (arith, load-delete t name hs)

-- `RemoveHandler` removes no handler: whatever name it is given, the server finds the same handler
-- for every message type as before.
pub remove_handler_keeps :
    (t : ℤ) (name : Text) (hs : Handlrs)
    → handlr_by_typ t (remove_handler name hs) ≡ handlr_by_typ t hs
unfolding handlr_by_typ remove_handler
remove_handler_keeps t name hs = rw (load-delete t name hs) refl

-- The loop goes on after the action: a channel that gets a message is read, and a reply that is
-- awaited comes.
unfoldable pub GoesOn : World → Action → Type 0
GoesOn w (answer none a) = Unit {0}
GoesOn w (answer (some (n, m)) a) = w.reads n m ≡ true
GoesOn w (await n m) = (w.reads n m ≡ true) × ((r : Text) × (w.replies n m ≡ some r))
GoesOn w stop = ⊥

-- the answer that a turn has for its message
unfoldable pub offered : World → Action → Text
offered w (answer m a) = a
offered w (await n m) = elim (w.replies n m) [ none ↦ [] | some r ↦ r ]
offered w stop = []

-- the turns whose answer the socket does not send
unfoldable pub unsent : (Text → Result ℤ) → Handlrs → List (World × Received) → ℕ
unsent metadata hs [] = 0
unsent metadata hs ((w, r) ∷ rs) =
    let rest = unsent metadata hs rs in
    if is_ok (w.sends (offered w (turn metadata hs r))) then rest else suc rest

send_res-length :
    (a : Text) (r : Result (Unit {0})) (rest : List Text × Status)
    → ((send_res a r rest).1 ≡ rest.1)
      × (length (send_res a r rest).0 + (if is_ok r then 0 else 1) ≡ suc (length rest.0))
unfolding send_res
send_res-length a (ok u) (sent, st) = (refl, omega arith)
send_res-length a (err e) (sent, st) = (refl, omega arith)
send_res-length a panic (sent, st) = (refl, omega arith)

perform-GoesOn :
    (w : World) (a : Action)
    → GoesOn w a
    → (rest : List Text × Status)
    → ((perform w a rest).1 ≡ rest.1)
      × (length (perform w a rest).0 + (if is_ok (w.sends (offered w a)) then 0 else 1)
          ≡ suc (length rest.0))
unfolding perform GoesOn offered
perform-GoesOn w (answer none a) g rest = send_res-length a (w.sends a) rest
perform-GoesOn w (answer (some (n, m)) a) g rest = rw g (send_res-length a (w.sends a) rest)
perform-GoesOn w (await n m) (g, (r, h)) rest =
    rw (g, h, reply_or_wait, offered) (send_res-length r (w.sends r) rest)
perform-GoesOn w stop g rest = elim g [ ]

-- If no message ends the loop, the channels that get a message are read, and every handler that is
-- asked for a reply gives one, then the loop goes on receiving, and it has sent one answer for each
-- message but those for which the socket did not send it.
pub start_answers :
    (metadata : Text → Result ℤ) (hs : Handlrs) (rs : List (World × Received))
    → All (λ r. GoesOn r.0 (turn metadata hs r.1)) rs
    → ((start metadata hs rs).1 ≡ running)
      × (length (start metadata hs rs).0 + unsent metadata hs rs ≡ length rs)
unfolding start unsent
start_answers metadata hs [] h = (refl, omega arith)
start_answers metadata hs ((w, r) ∷ rs) (g, h) =
    let (st, len) = start_answers metadata hs rs h in
    let (same, more) = perform-GoesOn w (turn metadata hs r) g (start metadata hs rs) in
    (same ∙ st, ground (arith, len, more))

-- what `Send` returns for an answer of one frame
abbrev pub result_of : Text → Result Text
result_of a = wrap "send error" (first_frame (a ∷ []))

-- How a server that sent the answer `a` came to it, for a message of a type: its handler has the
-- message and `a` is not the answer of a failure; or `a` is that answer, and there is no handler, or
-- a handler that is waited for gave it as its reply.
pub data Answered (w : World) (hs : Handlrs) (m : Message) (a : Text) : Type 0 where
  delivered :
      (h : Handler)
      → handlr_by_typ m.typ hs ≡ ok h
      → w.reads h.notifier m ≡ true
      → a ≢ failed_res
      → Answered w hs m a
  unhandled : ((h : Handler) → handlr_by_typ m.typ hs ≢ ok h) → a ≡ failed_res → Answered w hs m a
  refused :
      (h : Handler)
      → handlr_by_typ m.typ hs ≡ ok h
      → h.async ≡ false
      → w.replies h.notifier m ≡ some failed_res
      → a ≡ failed_res
      → Answered w hs m a
