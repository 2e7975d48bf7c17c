-- ===== src/PubSub/Processor/Acks.antt =====
-- pubsub/processor.go, acker and data, and pubsub/agent.go, RegisterAck: a data message is also sent on
-- the channel that is registered for its sender. A channel is a number.
use didcomm_prober.Prelude.{
  ℕ, ◌≡◌, refl, ap, ◌∙◌, Text, ◌==◌, List, [], ◌∷◌, Assoc, lookup, insert, remove, lookup-insert,
  lookup-remove, Bool, true, false, Option, none, some, Result, ok, if◌then◌else◌,
}
use didcomm_prober.PubSub.Node.{Node, GroupEnv}
use didcomm_prober.PubSub.Processor.{on_group_data}

abbrev pub AckChans : Type 0
AckChans = Assoc ℕ

unfoldable pub acker : Bool → Text → ℕ → AckChans → AckChans
acker register label ackr acks = if register then insert label ackr acks else remove label acks

unfoldable pub register_ack : Text → ℕ → AckChans → AckChans
unfolding acker
register_ack label chan acks = acker true label chan acks

unfoldable pub unregister_ack : Text → AckChans → AckChans
unfolding acker
unregister_ack label acks = acker false label 0 acks

abbrev pub sent_on : Text → Option ℕ → Option (ℕ × Text)
sent_on content none = none
sent_on content (some chan) = some (chan, content)

-- what is sent on the channel of the sender, if there is one
acknowledged : AckChans → Result (Option (Text × Text)) → Option (ℕ × Text)
acknowledged acks (ok (some (sender, content))) = sent_on content (lookup sender acks)
acknowledged acks _ = none

-- `data`, with what it sends on an acknowledgement channel
unfoldable pub data_acked :
    GroupEnv
    → AckChans
    → Text
    → Text
    → Node
    → Option (ℕ × Text) × (Result (Option (Text × Text)) × Node)
unfolding acknowledged
data_acked e acks zmq_topic msg n =
    let r = on_group_data e zmq_topic msg n in (acknowledged acks r.0, r)

-- A call of RegisterAck or UnregisterAck.
pub data Registration : Type 0 where
  registers : Text → ℕ → Registration
  unregisters : Text → Registration

unfoldable pub registered : List Registration → AckChans → AckChans
registered [] acks = acks
registered (registers label chan ∷ rs) acks = registered rs (register_ack label chan acks)
registered (unregisters label ∷ rs) acks = registered rs (unregister_ack label acks)

-- The channel that the last of the calls about a label leaves, where there is one, and else the one
-- from before.
unfoldable pub last_channel : Text → List Registration → Option ℕ → Option ℕ
last_channel label [] chan = chan
last_channel label (registers l c ∷ rs) chan =
    last_channel label rs (if l == label then some c else chan)
last_channel label (unregisters l ∷ rs) chan =
    last_channel label rs (if l == label then none else chan)

lookup-registered :
    (label : Text) (rs : List Registration) (acks : AckChans)
    → lookup label (registered rs acks) ≡ last_channel label rs (lookup label acks)
unfolding registered last_channel register_ack unregister_ack acker
lookup-registered label [] acks = refl
lookup-registered label (registers l c ∷ rs) acks =
    lookup-registered label rs (insert l c acks)
    ∙ ap (last_channel label rs) (lookup-insert l label c acks)
lookup-registered label (unregisters l ∷ rs) acks =
    lookup-registered label rs (remove l acks)
    ∙ ap (last_channel label rs) (lookup-remove l label acks)

-- After any calls of RegisterAck and UnregisterAck, for any labels, a data message that is read from a
-- sender goes, with its text, to the channel that the last call for that sender registered, and to
-- none where that call gave it up or there was none; calls for other labels change nothing about it.
pub data_acked-registered :
    (e : GroupEnv) (rs : List Registration) (zmq_topic msg sender content : Text) (n : Node)
    → (on_group_data e zmq_topic msg n).0 ≡ ok (some (sender, content))
    → (data_acked e (registered rs []) zmq_topic msg n).0
      ≡ sent_on content (last_channel sender rs none)
unfolding data_acked acknowledged lookup
data_acked-registered e rs zmq_topic msg sender content n read =
    rw (read, acknowledged) (ap (sent_on content) (lookup-registered sender rs []))
