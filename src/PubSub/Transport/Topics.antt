-- ===== src/PubSub/Transport/Topics.antt =====
-- pubsub/transport/zmq.go: the names of topics, and the frames of published messages.
use mathlib.Core.List.{append_assoc}
use didcomm_prober.Prelude.{
  ℕ, ◌≡◌, refl, ap, ◌∙◌, ◌≢◌, Text, str, ◌==◌, Option, none, some, List, [], ◌∷◌, ◌++◌, arith, eqb,
  All, Bool-cases, inl, inr, Result, ok, ◌>>=◌, >>=-eq-ok, subst, if◌then◌else◌,
}
use didcomm_prober.Domain.{topic_prefix, multiple_queue_mode, single_queue_mode}
use didcomm_prober.PubSub.Stores.Group.{Store, mode}

unfoldable pub data_topic : Store → Text → Text → Text → Result Text
data_topic gs topic publisher sub = do
  m ← mode topic gs
  if m == single_queue_mode
      then ok (topic_prefix ++ (topic ++ str ":data"))
      else ok (topic_prefix ++ (topic ++ (str ":data:" ++ (publisher ++ (b':' ∷ sub)))))

unfoldable pub state_topic : Text → Text
state_topic topic = topic_prefix ++ (topic ++ str ":state")

cons_head : ℕ → List Text → List Text
cons_head c [] = (c ∷ []) ∷ []
cons_head c (w ∷ ws) = (c ∷ w) ∷ ws

-- strings.Split at a one-byte separator
unfoldable pub split : ℕ → Text → List Text
unfolding cons_head
split sep [] = [] ∷ []
split sep (c ∷ cs) = let rest = split sep cs in if eqb c sep then [] ∷ rest else cons_head c rest

third_part : List Text → Text
third_part (a ∷ b ∷ c ∷ rest) = c
third_part _ = []

unfoldable pub group_name_by_data_topic : Text → Text
unfolding third_part split
group_name_by_data_topic topic = third_part (split b':' topic)

prepend : ℕ → Option (Text × Text) → Option (Text × Text)
prepend c none = none
prepend c (some (head, rest)) = some (c ∷ head, rest)

-- strings.SplitN(msg, " ", 2), `none` where it has one part only
unfoldable pub frames : Text → Option (Text × Text)
unfolding prepend
frames [] = none
frames (c ∷ cs) = let rest = frames cs in if eqb c b' ' then some ([], cs) else prepend c rest

-- fmt.Sprintf("%s %s", topic, data)
unfoldable pub framed : Text → Text → Text
framed topic content = topic ++ (b' ' ∷ content)

-- No byte of the text is the separator.
abbrev pub Free : ℕ → Text → Type 0
Free sep = All (λ c. c ≢ sep)

frames-Free :
    (topic content : Text)
    → Free b' ' topic
    → frames (topic ++ (b' ' ∷ content)) ≡ some (topic, content)
unfolding frames
frames-Free [] content h = refl
frames-Free (c ∷ cs) content h = ground (arith, frames-Free cs content h.1)

-- A listener takes a published message apart into the topic and the payload that were published,
-- if the topic has no space. The payload may have any bytes.
pub frames-framed :
    (topic content : Text) → Free b' ' topic → frames (framed topic content) ≡ some (topic, content)
unfolding framed
frames-framed = frames-Free

split-Free : (sep : ℕ) (t : Text) → Free sep t → split sep t ≡ t ∷ []
unfolding split
split-Free sep [] h = refl
split-Free sep (c ∷ cs) h = ground (arith, split-Free sep cs h.1)

split_first :
    (sep : ℕ) (t rest : Text) → Free sep t → split sep (t ++ (sep ∷ rest)) ≡ t ∷ split sep rest
unfolding split
split_first sep [] rest h = ground arith
split_first sep (c ∷ cs) rest h = ground (arith, split_first sep cs rest h.1)

-- The text up to the first separator.
before : ℕ → Text → Text
before sep [] = []
before sep (c ∷ cs) = if eqb c sep then [] else c ∷ before sep cs

split-before :
    (sep : ℕ) (t rest : Text)
    → (ws : List Text) × (split sep (t ++ (sep ∷ rest)) ≡ before sep t ∷ ws)
unfolding split before
split-before sep [] rest = (split sep rest, ground arith)
split-before sep (c ∷ cs) rest =
    let (ws, e) = split-before sep cs rest in
    elim (Bool-cases (eqb c sep)) [
      | inl h ↦ (split sep (cs ++ (sep ∷ rest)), rw h)
      | inr h ↦ (ws, rw (h, e))
    ]

third_of_prefix :
    (t rest : Text)
    → group_name_by_data_topic (topic_prefix ++ (t ++ (b':' ∷ rest))) ≡ before b':' t
unfolding group_name_by_data_topic
third_of_prefix t rest = let (ws, e) = split-before b':' t rest in rw e

before-Free : (sep : ℕ) (t : Text) → Free sep t → before sep t ≡ t
unfolding before
before-Free sep [] h = refl
before-Free sep (c ∷ cs) h = ground (arith, before-Free sep cs h.1)

group_name-data_topic-before :
    (gs : Store) (topic publisher sub dt : Text)
    → data_topic gs topic publisher sub ≡ ok dt
    → group_name_by_data_topic dt ≡ before b':' topic
unfolding data_topic
group_name-data_topic-before gs topic publisher sub dt e =
    let (m, known, e') = >>=-eq-ok (mode topic gs) _ e in
    elim (Bool-cases (m == single_queue_mode)) [
      | inl single ↦
          subst (λ x. group_name_by_data_topic x ≡ before b':' topic) (ground (arith, single, e'))
            (third_of_prefix topic (str "data"))
      | inr multiple ↦
          subst (λ x. group_name_by_data_topic x ≡ before b':' topic) (ground (arith, multiple, e'))
            (third_of_prefix topic (str "data:" ++ (publisher ++ (b':' ∷ sub))))
    ]

-- The name of a group with no colon is found again in every data topic that is made for it, in
-- either mode, whatever the labels.
pub group_name-data_topic :
    (gs : Store) (topic publisher sub dt : Text)
    → Free b':' topic
    → data_topic gs topic publisher sub ≡ ok dt
    → group_name_by_data_topic dt ≡ topic
group_name-data_topic gs topic publisher sub dt h e =
    group_name-data_topic-before gs topic publisher sub dt e ∙ before-Free b':' topic h

multiple_topic : Text → Text → Text → Text
multiple_topic topic publisher sub =
    topic_prefix ++ (topic ++ (str ":data:" ++ (publisher ++ (b':' ∷ sub))))

data_topic_multiple :
    (gs : Store) (topic publisher sub : Text)
    → mode topic gs ≡ ok multiple_queue_mode
    → data_topic gs topic publisher sub ≡ ok (multiple_topic topic publisher sub)
unfolding data_topic multiple_topic ◌==◌
data_topic_multiple gs topic publisher sub h = rw h

multiple_topic_append :
    (topic publisher sub more : Text)
    → multiple_topic topic publisher (sub ++ more) ≡ multiple_topic topic publisher sub ++ more
unfolding multiple_topic
multiple_topic_append topic publisher sub more = simp append_assoc

-- In the mode of multiple queues, the data topic of a subscriber begins the data topic of every
-- subscriber whose label begins with its label. (A ZeroMQ subscription matches by prefix.)
pub data_topic-extends :
    (gs : Store) (topic publisher sub more dt : Text)
    → mode topic gs ≡ ok multiple_queue_mode
    → data_topic gs topic publisher sub ≡ ok dt
    → data_topic gs topic publisher (sub ++ more) ≡ ok (dt ++ more)
data_topic-extends gs topic publisher sub more dt h e =
    data_topic_multiple gs topic publisher (sub ++ more) h
    ∙ ap ok (
        multiple_topic_append topic publisher sub more
        ∙ ap (λ x. x ++ more) (ground (arith, e, data_topic_multiple gs topic publisher sub h)))
