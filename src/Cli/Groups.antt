-- ===== src/Cli/Groups.antt =====
-- cli/runner.go, createGroup: which answers make a group, and with which parameters.
use didcomm_prober.Prelude.{
  ◌≡◌, refl, sym, subst, Text, str, ◌==◌, ◌||◌, Bool, true, false, Option, none, some, List, [],
  ◌∷◌, arith, Result, ok, err, panic, fail, if◌then◌else◌,
}
use didcomm_prober.Domain.{GroupParams}
use didcomm_prober.PubSub.Node.{Node}
use didcomm_prober.PubSub.Agent.{create}
use didcomm_prober.Cli.Console.{
  Console, input, next_line, on_node, on_console, returned, after, show, Shown, line, trim_space,
  to_lower, lower, valid_bool,
}
use didcomm_prober.Cli.Commands.{
  CliEnv, create_group, create_with, create_valid, or_show, queue_mode,
}

-- What an answer to a question with yes or no says.
abbrev pub answer : Text → Option Bool
answer t =
    if t == str "y" || t == str "Y"
    then some true
    else if t == str "n" || t == str "N"
    then some false
    else none

abbrev pub answered : Option Bool → Result Bool
answered none = fail "invalid input for publisher"
answered (some b) = ok b

valid_bool-eq : (t : Text) → valid_bool t ≡ answered (answer t)
unfolding valid_bool to_lower lower ◌==◌
valid_bool-eq [] = refl
valid_bool-eq (b ∷ []) = ground arith
valid_bool-eq (b ∷ c ∷ t) = ground arith

-- What is shown leaves the node as the method left it.
told_node :
    {A : Type 0} (text : Text) (s : Shown) (r : Result A) (c : Console)
    → (after (returned r) (λ made. or_show text made (λ a. show s)) c).1.node ≡ c.node
unfolding returned or_show
told_node text s (ok a) c = refl
told_node text s (err m) c = refl
told_node text s panic c = refl

created_node :
    (e : CliEnv) (c : Console) (topic : Text) (publisher : Bool) (gp : GroupParams)
    → (create_valid e topic publisher gp c).1.node
      ≡ (create (e.group c) topic publisher gp c.node).1
unfolding create_valid on_console on_node
created_node e c topic publisher gp =
    told_node (str "create group failed") (line (str "Group created") true)
      (create (e.group c) topic publisher gp c.node).0
      (record c { node = (create (e.group c) topic publisher gp c.node).1 })

module _ (e : CliEnv) (c : Console) (topic mode : Text) where
  -- The node after `createGroup`: that of `Create` if the three answers are yes or no, and else as before.
  abbrev pub node_after : Option Bool → Option Bool → Option Bool → Node
  node_after (some publisher) (some ordrd) (some join_consist) =
      (create (e.group c) topic publisher
        (record { order_enabled = ordrd; join_consistent = join_consist; mode = queue_mode mode })
        c.node).1
  node_after _ _ _ = c.node

  shown_node :
      (publisher ordrd join_consist : Option Bool)
      → (or_show
          (str "invalid input")
          (answered publisher)
          (λ p. or_show (str "invalid input") (answered ordrd) (λ o.
            or_show (str "invalid input") (answered join_consist) (λ j.
              create_valid e topic p
                (record { order_enabled = o; join_consistent = j; mode = queue_mode mode }))))
          c).1.node
        ≡ node_after publisher ordrd join_consist
  unfolding or_show
  shown_node none o j = refl
  shown_node (some p) none j = refl
  shown_node (some p) (some o) none = refl
  shown_node (some p) (some o) (some j) =
      created_node e c topic p
        (record { order_enabled = o; join_consistent = j; mode = queue_mode mode })

  create_with-node :
      (str_pub str_join_consist str_ordrd : Text)
      → (create_with e topic str_pub mode str_join_consist str_ordrd c).1.node
        ≡ node_after (answer str_pub) (answer str_ordrd) (answer str_join_consist)
  unfolding create_with
  create_with-node str_pub str_join_consist str_ordrd =
      rw (valid_bool-eq str_pub, valid_bool-eq str_ordrd, valid_bool-eq str_join_consist)
        (shown_node (answer str_pub) (answer str_ordrd) (answer str_join_consist))

-- Creating a group at the command line, with five lines to read: if the answers about the publisher,
-- the order and the join are each y, Y, n or N once white space is taken off, the node becomes the one
-- that `Create` makes with these answers, in the mode of a single queue for the answer s or S and of
-- multiple queues for any other; if one of the three is anything else, the node stays as it was.
pub create_group_lem :
    (e : CliEnv) (c : Console) (topic str_pub mode str_join_consist str_ordrd : Text)
    (rest : List (Option Text))
    → c.lines
      ≡ some topic ∷ some str_pub ∷ some mode ∷ some str_join_consist ∷ some str_ordrd ∷ rest
    → (create_group e c).1.node
      ≡ node_after e
          (record c { lines = rest })
          (trim_space topic)
          (trim_space mode)
          (answer (trim_space str_pub))
          (answer (trim_space str_ordrd))
          (answer (trim_space str_join_consist))
unfolding create_group input next_line
create_group_lem e c topic str_pub mode str_join_consist str_ordrd rest h =
    subst
      (λ (ls : List (Option Text)).
        (create_group e (record c { lines = ls })).1.node
        ≡ node_after e (record c { lines = rest }) (trim_space topic) (trim_space mode)
            (answer (trim_space str_pub)) (answer (trim_space str_ordrd))
            (answer (trim_space str_join_consist)))
      (sym h)
      (create_with-node e (record c { lines = rest }) (trim_space topic) (trim_space mode)
        (trim_space str_pub) (trim_space str_join_consist) (trim_space str_ordrd))
