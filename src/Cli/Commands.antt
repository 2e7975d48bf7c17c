-- ===== src/Cli/Commands.antt =====
-- cli/runner.go: the commands. What a command's methods draw and call depends on the console that they
-- are called on.
use didcomm_prober.Prelude.{
  Text, str, ◌==◌, ◌++◌, ◌||◌, Bool, true, Option, none, some, List, [], ◌∷◌, map, Result, ok, err,
  panic, if◌then◌else◌,
}
use didcomm_prober.Prelude.Exec.{gets, lift}
use didcomm_prober.Domain.{
  Feature, Member, GroupParams, GroupMode, single_queue_mode, multiple_queue_mode, data_msg,
}
use didcomm_prober.Prober.Agent.{Fresh, send_message}
use didcomm_prober.Prober.Agent.Exchange.{invite, accept}
use didcomm_prober.PubSub.Node.{GroupEnv, on_prober}
use didcomm_prober.PubSub.Agent.{create, send, leave, info}
use didcomm_prober.PubSub.Agent.Join
use didcomm_prober.PubSub.Agent.Join.{Progress, join}
use didcomm_prober.Cli.Console.{
  Console, Cmd, waits, line, failure, listed, group_info, ◌>>=◌, finish, show, on_console, on_node,
  input, valid_bool,
}

-- what the agent calls, url.Parse with the query parameter `oob`, and the discoverer's Query
pub record CliEnv : Type 0 where
  pub group : Console → GroupEnv
  pub fresh : Console → Fresh
  pub query_of : Text → Result (Option Text)
  pub discover : Console → Text → Text → Text → Result (List Feature)
  pub feature_line : Feature → Text
  -- whether `listen` has shown a text while the command was chosen
  pub listened : Console → Bool

-- `r.error(text, err); return` where a method failed
unfoldable pub or_show : {A : Type 0} → Text → Result A → (A → Cmd (Unit {0})) → Cmd (Unit {0})
or_show text (ok a) next = next a
or_show text (err e) next = show (failure text)
or_show text panic next = show (failure text)

abbrev pub queue_mode : Text → GroupMode
queue_mode mode =
    if mode == str "s" || mode == str "S" then single_queue_mode else multiple_queue_mode

-- A join that waits for another node does not come back.
unfoldable pub joined : Text → Progress → Cmd (Unit {0})
joined topic Join.done c = show (line (str "Joined group " ++ topic) true) c
joined topic Join.waiting c = (waits, c)

module _ (e : CliEnv) where
  unfoldable pub generate_invitation : Cmd (Unit {0})
  unfolding or_show
  generate_invitation = on_console (λ c. do
    made ← on_node (on_prober (invite (e.group c).agent (e.fresh c)))
    or_show (str "generating invitation failed") made
        (λ inv. show (line (str "Invitation URL: " ++ inv) true)))

  unfoldable pub accept_oob : Option Text → Cmd (Unit {0})
  unfolding or_show
  accept_oob none =
      show (failure (str "invitation url must contain 'oob' parameter, please try again"))
  accept_oob (some inv) = on_console (λ c. do
    accepted ← on_node (on_prober (accept (e.group c).agent (e.fresh c) inv))
    or_show (str "invitation may be invalid, please try again") accepted (λ sender. finish tt))

  unfoldable pub connect_with_inv : Cmd (Unit {0})
  unfolding or_show accept_oob
  connect_with_inv = do
    given ← input
    or_show (str "invalid url format, please try again") (e.query_of given) accept_oob

  unfoldable pub send_msg : Cmd (Unit {0})
  unfolding or_show
  send_msg = do
    to ← input
    msg ← input
    on_console (λ c. do
      sent ←
          on_node (
            on_prober (gets (send_message (e.group c).agent ((e.group c).draw to) data_msg to msg)))
      or_show (str "sending message failed") sent finish)

  unfoldable pub discover : Cmd (Unit {0})
  unfolding or_show
  discover = do
    endpoint ← input
    query ← input
    comment ← input
    on_console (λ c. do
      found ← on_node (lift (e.discover c endpoint query comment))
      or_show (str "discovering features failed, please try again") found
          (λ features. show (listed (str "Supported features") (map e.feature_line features))))

  -- `createGroup` once the answers are valid
  unfoldable pub create_valid : Text → Bool → GroupParams → Cmd (Unit {0})
  unfolding or_show
  create_valid topic publisher gp = on_console (λ c. do
    made ← on_node (create (e.group c) topic publisher gp)
    or_show (str "create group failed") made (λ u. show (line (str "Group created") true)))

  -- what `createGroup` does with the five answers
  unfoldable pub create_with : Text → Text → Text → Text → Text → Cmd (Unit {0})
  unfolding or_show create_valid
  create_with topic str_pub mode str_join_consist str_ordrd =
      or_show (str "invalid input") (valid_bool str_pub) (λ publisher.
        or_show (str "invalid input") (valid_bool str_ordrd) (λ ordrd.
          or_show (str "invalid input") (valid_bool str_join_consist) (λ join_consist.
            create_valid topic publisher (record {
              order_enabled = ordrd;
              join_consistent = join_consist;
              mode = queue_mode mode;
            }))))

  unfoldable pub create_group : Cmd (Unit {0})
  unfolding create_with
  create_group = do
    topic ← input
    str_pub ← input
    mode ← input
    str_join_consist ← input
    str_ordrd ← input
    create_with topic str_pub mode str_join_consist str_ordrd

  unfoldable pub join_group : Cmd (Unit {0})
  unfolding or_show joined
  join_group = do
    topic ← input
    acceptor ← input
    str_pub ← input
    or_show (str "invalid input") (valid_bool str_pub) (λ publisher. on_console (λ c. do
      came ← on_node (join (e.group c) topic acceptor publisher)
      or_show (str "group join failed") came (joined topic)))

  unfoldable pub group_msg : Cmd (Unit {0})
  unfolding or_show
  group_msg = do
    topic ← input
    msg ← input
    on_console (λ c. do
      sent ← on_node (send (e.group c) topic msg)
      or_show (str "sending group message failed") sent (λ sizes. finish tt))

  unfoldable pub leave_group : Cmd (Unit {0})
  unfolding or_show
  leave_group = do
    topic ← input
    on_console (λ c. do
      left ← on_node (leave (e.group c) topic)
      or_show (str "leaving group failed") left finish)

  unfoldable pub show_info : GroupParams × List Member → Cmd (Unit {0})
  show_info (gp, []) = show (line (str "Topic does not exist") true)
  show_info (gp, m ∷ ms) = show (group_info gp (m ∷ ms))

  unfoldable pub group_information : Cmd (Unit {0})
  unfolding show_info
  group_information = do
    topic ← input
    on_console (λ c. show_info (info (e.group c).range_members topic c.node.gs))
