-- ===== src/PubSub/Transport/Published.antt =====
-- pubsub/transport/zmq.go: what the listeners do with a published message, and with the text that ends
-- the connector.
use didcomm_prober.Prelude.{
  ℕ, ◌≡◌, ◌≢◌, refl, ap, Text, ◌==◌, eq_iff, Bool, true, false, ◌&&◌, not, eqb, some, List, [], ◌∷◌,
  length, arith, ok, Bool-cases, inl, inr, Result-cases,
}
use didcomm_prober.PubSub.Transport.Topics.{Free, frames, framed, frames-framed}
use didcomm_prober.PubSub.Transport.Messages.{
  PublishMsg, topic_connect, topic_subscribe, topic_authenticate, topic_term,
}
use didcomm_prober.PubSub.Transport.Sockets.{Socket}
use didcomm_prober.PubSub.Transport.Auth.{Auth}
use didcomm_prober.PubSub.Transport.Listeners.{
  Node, invalid, handed, state_turn, data_turn, state_frames, data_frames,
}
use didcomm_prober.PubSub.Transport.Connector.{
  sent, PubSocket, Sends, send, Connector, closing, ReqCodecs, connector_turn, publisher_turn,
  close_socket,
}

unfoldable pub all_other : ℕ → Text → Bool
all_other sep [] = true
all_other sep (b ∷ t) = not (eqb b sep) && all_other sep t

pub all_other-Free : (sep : ℕ) (t : Text) → all_other sep t ≡ true → Free sep t
unfolding all_other
all_other-Free sep [] h = tt
all_other-Free sep (b ∷ t) h = ground (arith, all_other-Free sep t)

pub longer : {A : Type 0} (x : A) (xs : List A) → xs ≢ x ∷ xs
longer x xs h = absurd (omega (arith, ap length h))

module _ (sends : Sends) where
  -- A text that was published is the one that was sent, and the socket took it.
  pub send-sent :
      (text msg : Text) (skt : PubSocket)
      → (send sends text skt).published ≡ msg ∷ skt.published
      → (sends skt text ≡ ok tt) × (msg ≡ text)
  unfolding send sent
  send-sent text msg skt h = elim (Result-cases (sends skt text)) [
    | inl (u, accepted) ↦
        let e : text ∷ skt.published ≡ msg ∷ skt.published = rw (← h, accepted) refl in
        (accepted, cc)
    | inr (inl (m, refused)) ↦ absurd (longer msg skt.published (rw (← h, refused) refl))
    | inr (inr stuck) ↦ absurd (longer msg skt.published (rw (← h, stuck) refl))
  ]

  -- What `closeChan` makes the connector publish has no payload, so that both listeners refuse it as
  -- invalid and go on: whatever the two sockets are, neither turn closes.
  pub close_ignored :
      (codecs : ReqCodecs) (state_node content_node : Node) (c : Connector) (msg : Text)
      (s : Socket × Auth) (k : Socket)
      → (connector_turn sends codecs closing c).skt.published ≡ msg ∷ c.skt.published
      → (state_turn state_node msg s ≡ (invalid, s)) × (data_turn content_node msg k ≡ (invalid, k))
  unfolding connector_turn close_socket state_turn data_turn state_frames data_frames frames
  close_ignored codecs state_node content_node c msg s k out =
      let (took, same) = send-sent topic_authenticate msg c.skt out in (rw same refl, rw same refl)

  -- The publisher replies without an error to a message that its socket sends, and a listener that
  -- receives it, of either kind, hands it to the group agent's handler with the topic and the payload
  -- that were published and with no change to its socket, if the topic has no space and is none of the
  -- three internal topics of requests.
  pub publish-handed :
      (state_node content_node : Node) (pm : PublishMsg) (skt : PubSocket) (msg : Text)
      (s : Socket × Auth) (k : Socket)
      → (publisher_turn sends pm skt).1.published ≡ msg ∷ skt.published
      → Free b' ' pm.topic
      → pm.topic ≢ topic_connect
      → pm.topic ≢ topic_subscribe
      → pm.topic ≢ topic_authenticate
      → ((publisher_turn sends pm skt).0 ≡ some (ok tt))
        × (state_turn state_node msg s ≡ (handed pm.topic pm.content, s))
        × (data_turn content_node msg k ≡ (handed pm.topic pm.content, k))
  unfolding publisher_turn close_socket state_turn data_turn state_frames data_frames
  publish-handed state_node content_node pm skt msg s k out free a b c =
      elim (Bool-cases (pm.topic == topic_term)) [
        | inl term ↦ absurd (longer msg skt.published (rw (← out, term) refl))
        | inr other ↦
            let text = framed pm.topic pm.content in
            let out_2 : (send sends text skt).published ≡ msg ∷ skt.published =
              rw (← out, other) refl in
            let (took, same) = send-sent text msg skt out_2 in
            let not_connect : pm.topic == topic_connect ≡ false =
              ground (arith, eq_iff pm.topic topic_connect) in
            let not_subscribe : pm.topic == topic_subscribe ≡ false =
              ground (arith, eq_iff pm.topic topic_subscribe) in
            let not_auth : pm.topic == topic_authenticate ≡ false =
              ground (arith, eq_iff pm.topic topic_authenticate) in
            let heard = frames-framed pm.topic pm.content free in
            (
              rw (other, took) refl,
              rw (same, heard, not_connect, not_subscribe, not_auth, other) refl,
              rw (same, heard, not_connect, not_subscribe, not_auth, other) refl,
            )
      ]
