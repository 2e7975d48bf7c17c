-- ===== src/PubSub/Transport/Delivered.antt =====
-- pubsub/transport/zmq.go: what the listeners do with the texts that the two publishing goroutines
-- send.
use didcomm_prober.Prelude.{
  ◌≡◌, ◌≢◌, refl, sym, ap, subst, ◌∙◌, Text, ◌==◌, eq_iff, eq_refl, insert, lookup-insert, Option,
  none, some, [], ◌∷◌, arith, Result, ok, err, panic,
}
use didcomm_prober.PubSub.Transport.Topics.{framed, frames-framed}
use didcomm_prober.PubSub.Transport.Messages.{
  ReplyIds, topic_connect, topic_subscribe, topic_authenticate,
}
use didcomm_prober.PubSub.Stores.Group.{mode}
use didcomm_prober.PubSub.Transport.Sockets.{Socket, Call}
use didcomm_prober.PubSub.Transport.Calm.{
  state_on_connect-Calm, state_on_subscribe-Calm, state_on_auth-Calm, data_on_connect-Calm,
  data_on_subscribe-Calm, data_on_auth-Calm,
}
use didcomm_prober.PubSub.Transport.Auth.{Auth}
use didcomm_prober.PubSub.Transport.Listeners.{
  Node, Turn, turn_of, replied, state_turn, data_turn, state_frames, data_frames, reply,
  state_connect, state_subscribe, state_auth, data_connect, data_subscribe, data_auth,
}
use didcomm_prober.PubSub.Transport.Published.{all_other, all_other-Free, longer, send-sent}
use didcomm_prober.PubSub.Transport.Connector.{
  ReplyChans, Chans, add_rep_chan, put_chan, reply_err, PubSocket, Sends, Connector, Inbox,
  connecting, subscribing, authenticating, closing, ReqCodecs, connector_turn, publish_request,
}

-- the reply channels of a request
unfoldable pub asked : Inbox → Option (ReplyIds × Chans)
asked (connecting cm chans) = some (cm.reply, chans)
asked (subscribing sm chans) = some (sm.reply, chans)
asked (authenticating am chans) = some (am.reply, chans)
asked closing = none

unfoldable pub group_of : Inbox → Option Text
group_of (connecting cm chans) = some cm.topic
group_of (subscribing sm chans) = some sm.topic
group_of (authenticating am chans) = none
group_of closing = none

-- The request reads back from its JSON as a listener decodes it.
unfoldable pub IsHeard : ReqCodecs → Node → Inbox → Type 0
IsHeard codecs n (connecting cm chans) =
    (t : Text) → codecs.connects.marshal cm ≡ ok t → n.connects t ≡ ok cm
IsHeard codecs n (subscribing sm chans) =
    (t : Text) → codecs.subscribes.marshal sm ≡ ok t → n.subscribes t ≡ ok sm
IsHeard codecs n (authenticating am chans) =
    (t : Text) → codecs.auths.marshal am ≡ ok t → n.auths t ≡ ok am
IsHeard codecs n closing = Unit

-- The turn comes to a reply for the id, an error or none; a panic is no reply.
abbrev pub RepliesOn : Text → Turn → Type 0
RepliesOn id (replied i r) = i ≡ id
RepliesOn id _ = ⊥

turn_of-RepliesOn : (id : Text) (r : Result (Unit {0})) → r ≢ panic → RepliesOn id (turn_of id r)
unfolding turn_of
turn_of-RepliesOn id (ok u) calm = refl
turn_of-RepliesOn id (err e) calm = refl
turn_of-RepliesOn id panic calm = absurd (calm refl)

-- What keeps a listener from a panic on a request: libzmq does not panic, and the mode of the group of
-- a connection or a subscription can be read, as for a group that was created or joined.
pub record IsCalm (n : Node) (inbox : Inbox) : Type 0 where
  pub answers_calm : (s : Socket) (c : Call) → n.answers s c ≢ panic
  pub known : (topic : Text) → group_of inbox ≡ some topic → mode topic n.gs ≢ panic

-- the topic of a request and its text
abbrev topic_of : Inbox → Text
topic_of (connecting cm chans) = topic_connect
topic_of (subscribing sm chans) = topic_subscribe
topic_of _ = topic_authenticate

abbrev text_of : ReqCodecs → Inbox → Result Text
text_of codecs (connecting cm chans) = codecs.connects.marshal cm
text_of codecs (subscribing sm chans) = codecs.subscribes.marshal sm
text_of codecs (authenticating am chans) = codecs.auths.marshal am
text_of codecs closing = panic

add_rep_chan-lookup :
    (ids : ReplyIds) (chans : Chans) (reps : ReplyChans)
    → ids.state ≢ []
    → ids.content ≢ []
    → ids.state ≢ ids.content
    → (reply_err ids.state (add_rep_chan ids chans reps) ≡ some chans.state)
      × (reply_err ids.content (add_rep_chan ids chans reps) ≡ some chans.content)
unfolding add_rep_chan put_chan reply_err
add_rep_chan-lookup ids chans reps a b c = ground (
  arith,
  eq_iff ids.state [],
  eq_iff ids.content [],
  eq_iff ids.content ids.state,
  eq_refl ids.state,
  eq_refl ids.content,
  lookup-insert ids.content ids.content chans.content (insert ids.state chans.state reps),
  lookup-insert ids.content ids.state chans.content (insert ids.state chans.state reps),
  lookup-insert ids.state ids.state chans.state reps,
)

-- A listener that hears a request replies on the channel that is meant for it.
state_turn-topic :
    (codecs : ReqCodecs) (n : Node) (inbox : Inbox) (ids : ReplyIds) (chans : Chans) (t : Text)
    (s : Socket × Auth)
    → asked inbox ≡ some (ids, chans)
    → IsHeard codecs n inbox
    → text_of codecs inbox ≡ ok t
    → IsCalm n inbox
    → RepliesOn ids.state (state_turn n (framed (topic_of inbox) t) s).0
unfolding asked IsHeard state_turn state_frames state_connect state_subscribe state_auth reply
    group_of ◌==◌ all_other
state_turn-topic codecs n (connecting cm chans_2) ids chans t s is heard written calm =
    let free = all_other-Free b' ' topic_connect refl in
    let same : cm.reply ≡ ids = cc in
    rw (frames-framed topic_connect t free, heard t written, ← same)
      (turn_of-RepliesOn cm.reply.state _ ((state_on_connect-Calm n calm.answers_calm cm).calm s))
state_turn-topic codecs n (subscribing sm chans_2) ids chans t s is heard written calm =
    let free = all_other-Free b' ' topic_subscribe refl in
    let same : sm.reply ≡ ids = cc in
    rw (frames-framed topic_subscribe t free, heard t written, ← same)
      (turn_of-RepliesOn sm.reply.state _ ((state_on_subscribe-Calm n calm.answers_calm sm).calm s))
state_turn-topic codecs n (authenticating am chans_2) ids chans t s is heard written calm =
    let free = all_other-Free b' ' topic_authenticate refl in
    let same : am.reply ≡ ids = cc in
    rw (frames-framed topic_authenticate t free, heard t written, ← same)
      (turn_of-RepliesOn am.reply.state _ ((state_on_auth-Calm n calm.answers_calm am).calm s))
state_turn-topic codecs n closing ids chans t s is heard written calm = cc

data_turn-topic :
    (codecs : ReqCodecs) (n : Node) (inbox : Inbox) (ids : ReplyIds) (chans : Chans) (t : Text)
    (s : Socket)
    → asked inbox ≡ some (ids, chans)
    → IsHeard codecs n inbox
    → text_of codecs inbox ≡ ok t
    → IsCalm n inbox
    → RepliesOn ids.content (data_turn n (framed (topic_of inbox) t) s).0
unfolding asked IsHeard data_turn data_frames data_connect data_subscribe data_auth reply group_of
    ◌==◌ all_other
data_turn-topic codecs n (connecting cm chans_2) ids chans t s is heard written calm =
    let free = all_other-Free b' ' topic_connect refl in
    let same : cm.reply ≡ ids = cc in
    rw (frames-framed topic_connect t free, heard t written, ← same)
      (turn_of-RepliesOn cm.reply.content _
        ((data_on_connect-Calm n calm.answers_calm cm (calm.known cm.topic refl)).calm s))
data_turn-topic codecs n (subscribing sm chans_2) ids chans t s is heard written calm =
    let free = all_other-Free b' ' topic_subscribe refl in
    let same : sm.reply ≡ ids = cc in
    rw (frames-framed topic_subscribe t free, heard t written, ← same)
      (turn_of-RepliesOn sm.reply.content _
        ((data_on_subscribe-Calm n calm.answers_calm sm (calm.known sm.topic refl)).calm s))
data_turn-topic codecs n (authenticating am chans_2) ids chans t s is heard written calm =
    let free = all_other-Free b' ' topic_authenticate refl in
    let same : am.reply ≡ ids = cc in
    rw (frames-framed topic_authenticate t free, heard t written, ← same)
      (turn_of-RepliesOn am.reply.content _ ((data_on_auth-Calm n calm.answers_calm am).calm s))
data_turn-topic codecs n closing ids chans t s is heard written calm = cc

module _ (sends : Sends) where
  publish_request-sent :
      (topic msg : Text) (r : Result Text) (skt : PubSocket)
      → (publish_request sends topic r skt).published ≡ msg ∷ skt.published
      → (t : Text) × (r ≡ ok t) × (msg ≡ framed topic t)
  unfolding publish_request
  publish_request-sent topic msg (ok t) skt h =
      (t, refl, (send-sent sends (framed topic t) msg skt h).1)
  publish_request-sent topic msg (err e) skt h = absurd (longer msg skt.published h)
  publish_request-sent topic msg panic skt h = absurd (longer msg skt.published h)

  published_text :
      (codecs : ReqCodecs) (inbox : Inbox) (ids : ReplyIds) (chans : Chans) (c : Connector)
      (msg : Text)
      → asked inbox ≡ some (ids, chans)
      → (connector_turn sends codecs inbox c).skt.published ≡ msg ∷ c.skt.published
      → (t : Text) × (text_of codecs inbox ≡ ok t) × (msg ≡ framed (topic_of inbox) t)
  unfolding connector_turn asked
  published_text codecs (connecting cm chans_2) ids chans c msg is h =
      publish_request-sent topic_connect msg (codecs.connects.marshal cm) c.skt h
  published_text codecs (subscribing sm chans_2) ids chans c msg is h =
      publish_request-sent topic_subscribe msg (codecs.subscribes.marshal sm) c.skt h
  published_text codecs (authenticating am chans_2) ids chans c msg is h =
      publish_request-sent topic_authenticate msg (codecs.auths.marshal am) c.skt h
  published_text codecs closing ids chans c msg is h = cc

  reps_of :
      (codecs : ReqCodecs) (inbox : Inbox) (ids : ReplyIds) (chans : Chans) (c : Connector)
      → asked inbox ≡ some (ids, chans)
      → (connector_turn sends codecs inbox c).reps ≡ add_rep_chan ids chans c.reps
  unfolding connector_turn asked
  reps_of codecs (connecting cm chans_2) ids chans c is = cc
  reps_of codecs (subscribing sm chans_2) ids chans c is = cc
  reps_of codecs (authenticating am chans_2) ids chans c is = cc
  reps_of codecs closing ids chans c is = cc

  -- Every request for a connection, a subscription or an authentication that the connector publishes
  -- brings both listeners to a reply: the state listener's turn ends in the send of one, an error or
  -- none, for the request's first id, and the data listener's for its second, whatever errors their
  -- sockets answer; and the two ids stand for the two channels that came with the request. Whether the
  -- requester then reads a channel is not part of it. It is assumed that libzmq does not panic, that
  -- the mode of the group can be read for a connection or a subscription, that the request reads back
  -- from its JSON, and that the ids are not empty and not the same.
  pub request-answered :
      (codecs : ReqCodecs) (state_node content_node : Node) (inbox : Inbox) (ids : ReplyIds)
      (chans : Chans) (c : Connector) (msg : Text) (s : Socket × Auth) (k : Socket)
      → asked inbox ≡ some (ids, chans)
      → IsHeard codecs state_node inbox
      → IsHeard codecs content_node inbox
      → IsCalm state_node inbox
      → IsCalm content_node inbox
      → (connector_turn sends codecs inbox c).skt.published ≡ msg ∷ c.skt.published
      → ids.state ≢ []
      → ids.content ≢ []
      → ids.state ≢ ids.content
      → RepliesOn ids.state (state_turn state_node msg s).0
        × RepliesOn ids.content (data_turn content_node msg k).0
        × (reply_err ids.state (connector_turn sends codecs inbox c).reps ≡ some chans.state)
        × (reply_err ids.content (connector_turn sends codecs inbox c).reps ≡ some chans.content)
  request-answered codecs state_node content_node inbox ids chans c msg s k is heard heard_2 calm
        calm_2 out a b d =
      let (t, written, msg_eq) = published_text codecs inbox ids chans c msg is out in
      let (at_state, at_content) = add_rep_chan-lookup ids chans c.reps a b d in
      let reps = reps_of codecs inbox ids chans c is in
      (
        subst (λ m. RepliesOn ids.state (state_turn state_node m s).0) (sym msg_eq)
            (state_turn-topic codecs state_node inbox ids chans t s is heard written calm),
        subst (λ m. RepliesOn ids.content (data_turn content_node m k).0) (sym msg_eq)
            (data_turn-topic codecs content_node inbox ids chans t k is heard_2 written calm_2),
        ap (reply_err ids.state) reps ∙ at_state,
        ap (reply_err ids.content) reps ∙ at_content,
      )
