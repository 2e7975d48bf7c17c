-- ===== src/PubSub/Transport/Calm.antt =====
-- pubsub/transport/zmq.go: the methods of the listeners do not panic, if the mode of the group can be read
-- and libzmq does not panic.
use didcomm_prober.Prelude.{
  ◌≢◌, refl, Text, ◌==◌, Bool, true, false, List, [], ◌∷◌, arith, Result, ok, err, panic, wrap,
  Result-cases, inl, inr, if◌then◌else◌,
}
use Prim.Native.String.{String}
use didcomm_prober.Prelude.Exec.{Exec, pure, lift, wrapping, ◌>>=◌, continue}
use didcomm_prober.Domain.{Member, Role, publisher, subscriber, null}
use didcomm_prober.PubSub.Stores.Group.{Store, mode}
use didcomm_prober.PubSub.Transport.Topics.{data_topic}
use didcomm_prober.PubSub.Transport.Messages.{ConnectMsg, SubscribeMsg, AuthMsg}
use didcomm_prober.PubSub.Transport.Sockets.{
  Answers, Socket, Call, accepted, call, subscribe_status, connect_state, subscribe_data, ends,
  connect_data, unsubscribe_each, unsubscribe_all_data, disconnect_each, unsubscribe_state,
  unsubscribe_data, disconnect_status,
}
use didcomm_prober.PubSub.Transport.Auth.{
  Auth, PeerKeys, set_peer_state_authn, set_peer_data_authn, store_keys,
}
use didcomm_prober.PubSub.Transport.Listeners.{
  Node, on_socket, state_on_connect, state_on_subscribe, state_on_auth, data_on_connect,
  data_on_subscribe, data_on_auth,
}

-- The method does not panic.
pub record Calm {S A : Type 0} (m : Exec S A) : Type 0 where
  pub calm : (s : S) → (m s).0 ≢ panic

wrap_calm : {A : Type 0} (m : String) (r : Result A) → r ≢ panic → wrap m r ≢ panic
wrap_calm m (ok a) c h = cc
wrap_calm m (err e) c h = cc
wrap_calm m panic c h = c refl

continue-Calm :
    {S A B : Type 0} (r : Result A) (f : A → Exec S B) (s : S)
    → r ≢ panic
    → ((a : A) → Calm (f a))
    → (continue r f s).0 ≢ panic
continue-Calm (ok a) f s c rest h = (rest a).calm s h
continue-Calm (err e) f s c rest h = cc
continue-Calm panic f s c rest h = c refl

pure-Calm : {S A : Type 0} (a : A) → Calm {S = S} (pure a)
pure-Calm a = record { calm = λ s h. cc }

lift-Calm : {S A : Type 0} (r : Result A) → r ≢ panic → Calm {S = S} (lift r)
lift-Calm r c = record { calm = λ s. c }

wrapping-Calm : {S A : Type 0} (m : String) {f : Exec S A} → Calm f → Calm (wrapping m f)
wrapping-Calm m {f} c = record { calm = λ s. wrap_calm m (f s).0 (c.calm s) }

>>=-Calm :
    {S A B : Type 0} (m : Exec S A) (f : A → Exec S B)
    → Calm m
    → ((a : A) → Calm (f a))
    → Calm (m >>= f)
>>=-Calm m f first rest = record { calm = λ s. continue-Calm (m s).0 f (m s).1 (first.calm s) rest }

if-Calm : {S A : Type 0} (b : Bool) {m k : Exec S A} → Calm m → Calm k → Calm (if b then m else k)
if-Calm true first second = first
if-Calm false first second = second

on_socket-Calm : {m : Exec Socket (Unit {0})} → Calm m → Calm (on_socket m)
unfolding on_socket
on_socket-Calm c = record { calm = λ p. c.calm p.0 }

ends_calm :
    (gs : Store) (order : List Member → List Member) (answers : Answers) (r : Role)
    (initiator peer : Text)
    → ends gs order answers r initiator peer ≢ panic
unfolding ends
ends_calm gs order answers publisher initiator peer h = cc
ends_calm gs order answers subscriber initiator peer h = cc
ends_calm gs order answers null initiator peer h = cc

data_topic_calm :
    (gs : Store) (topic pub_label sub_label : Text)
    → mode topic gs ≢ panic
    → data_topic gs topic pub_label sub_label ≢ panic
unfolding data_topic
data_topic_calm gs topic pub_label sub_label known h = elim (Result-cases (mode topic gs)) [
  | inl (m, e) ↦ ground (arith, h, e)
  | inr (inl (w, e)) ↦ ground (arith, h, e)
  | inr (inr e) ↦ known e
]

accepted_calm :
    (c : Call) (s : Socket) (r : Result (Unit {0})) → r ≢ panic → (accepted c s r).0 ≢ panic
unfolding accepted
accepted_calm c s (ok u) calm h = cc
accepted_calm c s (err e) calm h = cc
accepted_calm c s panic calm h = calm refl

store_keys_calm :
    (r : Result (Unit {0})) (peer : Text) (ks : PeerKeys) (a : Auth) (s : Socket)
    → r ≢ panic
    → (store_keys peer ks a (r, s)).0 ≢ panic
unfolding store_keys
store_keys_calm (ok u) peer ks a s calm h = cc
store_keys_calm (err e) peer ks a s calm h = cc
store_keys_calm panic peer ks a s calm h = calm refl

ruleset calm_rules = (
  pure-Calm, lift-Calm, wrapping-Calm, >>=-Calm, if-Calm, on_socket-Calm, ends_calm,
  data_topic_calm,
)

module _ (n : Node) (answers_calm : (s : Socket) (c : Call) → n.answers s c ≢ panic) where
  open n use {gs, order, answers}

  call-Calm : (m : String) (c : Call) → Calm (call answers m c)
  unfolding call
  call-Calm m c = record {
    calm = λ s.
        accepted_calm c s (wrap m (answers s c)) (wrap_calm m (answers s c) (answers_calm s c));
  }

  disconnect_each-Calm :
      (label : Text) (ms : List Member) → Calm (disconnect_each gs order answers label ms)
  unfolding disconnect_each
  disconnect_each-Calm label [] = search calm_rules
  disconnect_each-Calm label (m ∷ ms) =
      let rest = disconnect_each-Calm label ms in
      if-Calm (m.label == label) rest (>>=-Calm _ _ (call-Calm _ _) (λ u. rest))

  pub state_on_connect-Calm : (cm : ConnectMsg) → Calm (state_on_connect n cm)
  unfolding state_on_connect connect_state subscribe_status disconnect_status
  state_on_connect-Calm cm = search (calm_rules, call-Calm) depth 30 fits 4000

  pub state_on_subscribe-Calm : (sm : SubscribeMsg) → Calm (state_on_subscribe n sm)
  unfolding state_on_subscribe unsubscribe_state
  state_on_subscribe-Calm sm =
      search (calm_rules, call-Calm, disconnect_each-Calm) depth 30 fits 4000

  set_keys-Calm : (peer serv client : Text) → Calm (set_peer_state_authn answers peer serv client)
  unfolding set_peer_state_authn
  set_keys-Calm peer serv client = record {
    calm = λ p. store_keys_calm _ _ _ _ _ ((call-Calm _ _).calm p.0);
  }

  pub state_on_auth-Calm : (am : AuthMsg) → Calm (state_on_auth n am)
  unfolding state_on_auth
  state_on_auth-Calm am = search (calm_rules, set_keys-Calm)

  pub data_on_connect-Calm :
      (cm : ConnectMsg) → mode cm.topic gs ≢ panic → Calm (data_on_connect n cm)
  unfolding data_on_connect connect_data subscribe_data
  data_on_connect-Calm cm known = search (calm_rules, call-Calm, known) depth 30 fits 4000

  unsubscribe_each-Calm :
      (label topic : Text) (ms : List Member)
      → mode topic gs ≢ panic
      → Calm (unsubscribe_each gs order answers label topic ms)
  unfolding unsubscribe_each
  unsubscribe_each-Calm label topic [] known = search calm_rules
  unsubscribe_each-Calm label topic (m ∷ ms) known =
      let rest = unsubscribe_each-Calm label topic ms known in
      if-Calm (m.label == label) rest (
        if-Calm m.publisher
          (>>=-Calm _ _ (lift-Calm _ (data_topic_calm gs topic m.label label known))
            (λ dt. >>=-Calm _ _ (call-Calm _ _) (λ u. >>=-Calm _ _ (call-Calm _ _) (λ v. rest))))
          rest)

  pub data_on_subscribe-Calm :
      (sm : SubscribeMsg) → mode sm.topic gs ≢ panic → Calm (data_on_subscribe n sm)
  unfolding data_on_subscribe unsubscribe_all_data unsubscribe_data
  data_on_subscribe-Calm sm known =
      search (calm_rules, call-Calm, known, unsubscribe_each-Calm) depth 30 fits 4000

  pub data_on_auth-Calm : (am : AuthMsg) → Calm (data_on_auth n am)
  unfolding data_on_auth set_peer_data_authn
  data_on_auth-Calm am = search (calm_rules, call-Calm)
