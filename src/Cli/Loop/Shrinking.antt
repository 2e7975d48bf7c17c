-- ===== src/Cli/Loop/Shrinking.antt =====
-- cli/runner.go: a command takes lines off the input and puts none back.
use didcomm_prober.Prelude.{
  ℕ, ◌≤◌, ◌≡◌, Text, Bool, true, false, Option, none, some, List, [], ◌∷◌, length, arith, Result,
  ok, err, panic, if◌then◌else◌, Option-cases, inl, inr,
}
use didcomm_prober.Prelude.Exec.{Exec}
use didcomm_prober.Domain.{GroupParams, Member}
use didcomm_prober.PubSub.Node.{Node}
use didcomm_prober.PubSub.Agent.Join
use didcomm_prober.PubSub.Agent.Join.{Progress}
use didcomm_prober.Cli.Console.{
  Console, Cmd, Ending, done, waits, crashed, exited, Shown, after, ◌>>=◌, finish, show, on_console,
  on_node, input, next_line, trim_space,
}
use didcomm_prober.Cli.Commands.{
  CliEnv, or_show, joined, generate_invitation, connect_with_inv, accept_oob, send_msg,
  create_group, create_with, create_valid, join_group, group_msg, leave_group, group_information,
  show_info, discover,
}
use didcomm_prober.Cli.Loop.{
  Mode, enabling, choosing, choose, back, unknown, set_dis_cmds, enable, on_read,
}

-- A command leaves no more lines than it found.
pub record Shrinks {A : Type 0} (m : Cmd A) : Type 0 where
  pub shorter : (c : Console) → length (m c).1.lines ≤ length c.lines

finish-Shrinks : {A : Type 0} (a : A) → Shrinks (finish a)
finish-Shrinks a = record { shorter = λ c. omega arith }

show-Shrinks : (s : Shown) → Shrinks (show s)
show-Shrinks s = record { shorter = λ c. omega arith }

on_node-Shrinks : {A : Type 0} (m : Exec Node A) → Shrinks (on_node m)
unfolding on_node
on_node-Shrinks m = record { shorter = λ c. omega arith }

set_dis_cmds-Shrinks : (f : ℕ → ℕ) → Shrinks (set_dis_cmds f)
unfolding set_dis_cmds
set_dis_cmds-Shrinks f = record { shorter = λ c. omega arith }

after-Shrinks :
    {A B : Type 0} (r : Ending A) {f : A → Cmd B} → ((a : A) → Shrinks (f a)) → Shrinks (after r f)
after-Shrinks (done a) rest = record { shorter = (rest a).shorter }
after-Shrinks waits rest = record { shorter = λ c. omega arith }
after-Shrinks crashed rest = record { shorter = λ c. omega arith }
after-Shrinks exited rest = record { shorter = λ c. omega arith }

>>=-Shrinks :
    {A B : Type 0} (m : Cmd A) (f : A → Cmd B)
    → Shrinks m
    → ((a : A) → Shrinks (f a))
    → Shrinks (m >>= f)
>>=-Shrinks m f first rest = record {
  shorter = λ c. omega (arith, first.shorter c, (after-Shrinks (m c).0 rest).shorter (m c).1);
}

if-Shrinks :
    {A : Type 0} (b : Bool) {m k : Cmd A} → Shrinks m → Shrinks k → Shrinks (if b then m else k)
if-Shrinks true first second = first
if-Shrinks false first second = second

-- what is done depends on the console
on_console-Shrinks :
    {A : Type 0} (f : Console → Cmd A) → ((c : Console) → Shrinks (f c)) → Shrinks (on_console f)
unfolding on_console
on_console-Shrinks f all = record { shorter = λ c. (all c).shorter c }

or_show-Shrinks :
    {A : Type 0} (text : Text) (r : Result A) (next : A → Cmd (Unit {0}))
    → ((a : A) → Shrinks (next a))
    → Shrinks (or_show text r next)
unfolding or_show
or_show-Shrinks text (ok a) next all = all a
or_show-Shrinks text (err e) next all = record { shorter = λ c. omega arith }
or_show-Shrinks text panic next all = record { shorter = λ c. omega arith }

next_line-shorter :
    (ls : List (Option Text)) (l : Text) (rest : List (Option Text))
    → next_line ls ≡ some (l, rest)
    → length rest ≤ length ls
unfolding next_line
next_line-shorter [] l rest h = cc
next_line-shorter (none ∷ ls) l rest h = omega (arith, next_line-shorter ls l rest h)
next_line-shorter (some t ∷ ls) l rest h = let e : ls ≡ rest = cc in rw (← e) (omega arith)

ruleset shrinks_rules = (
  finish-Shrinks, show-Shrinks, on_node-Shrinks, set_dis_cmds-Shrinks, >>=-Shrinks, if-Shrinks,
  on_console-Shrinks, or_show-Shrinks,
)

input-Shrinks : Shrinks input
unfolding input
input-Shrinks = record {
  shorter = λ c. elim (Option-cases (next_line c.lines)) [
    | inl over ↦ ground (arith, over)
    | inr ((l, rest), found) ↦ ground (arith, found, next_line-shorter c.lines l rest found)
  ];
}

joined-Shrinks : (topic : Text) (p : Progress) → Shrinks (joined topic p)
unfolding joined
joined-Shrinks topic Join.done = record { shorter = λ c. omega arith }
joined-Shrinks topic Join.waiting = record { shorter = λ c. omega arith }

module _ (e : CliEnv) where
  generate_invitation-Shrinks : Shrinks (generate_invitation e)
  unfolding generate_invitation
  generate_invitation-Shrinks = search shrinks_rules

  send_msg-Shrinks : Shrinks (send_msg e)
  unfolding send_msg
  send_msg-Shrinks = search (shrinks_rules, input-Shrinks) depth 30 fits 4000

  discover-Shrinks : Shrinks (discover e)
  unfolding discover
  discover-Shrinks = search (shrinks_rules, input-Shrinks) depth 30 fits 4000

  group_msg-Shrinks : Shrinks (group_msg e)
  unfolding group_msg
  group_msg-Shrinks = search (shrinks_rules, input-Shrinks) depth 30 fits 4000

  leave_group-Shrinks : Shrinks (leave_group e)
  unfolding leave_group
  leave_group-Shrinks = search (shrinks_rules, input-Shrinks) depth 30 fits 4000

  join_group-Shrinks : Shrinks (join_group e)
  unfolding join_group
  join_group-Shrinks = search (shrinks_rules, input-Shrinks, joined-Shrinks) depth 30 fits 4000

  create_group-Shrinks : Shrinks (create_group e)
  unfolding create_group create_with create_valid
  create_group-Shrinks = search (shrinks_rules, input-Shrinks) depth 30 fits 4000

  accept_oob-Shrinks : (o : Option Text) → Shrinks (accept_oob e o)
  unfolding accept_oob
  accept_oob-Shrinks none = record { shorter = λ c. omega arith }
  accept_oob-Shrinks (some inv) = search shrinks_rules

  connect_with_inv-Shrinks : Shrinks (connect_with_inv e)
  unfolding connect_with_inv
  connect_with_inv-Shrinks = search (shrinks_rules, input-Shrinks, accept_oob-Shrinks)

  show_info-Shrinks : (i : GroupParams × List Member) → Shrinks (show_info e i)
  unfolding show_info
  show_info-Shrinks (gp, []) = record { shorter = λ c. omega arith }
  show_info-Shrinks (gp, m ∷ ms) = record { shorter = λ c. omega arith }

  group_information-Shrinks : Shrinks (group_information e)
  unfolding group_information
  group_information-Shrinks =
      search (shrinks_rules, input-Shrinks, show_info-Shrinks) depth 30 fits 4000

  back-Shrinks : {m : Cmd (Unit {0})} → Shrinks m → Shrinks (back e m)
  unfolding back
  back-Shrinks h = search shrinks_rules depth 30 fits 4000

  unknown-Shrinks : Shrinks (unknown e)
  unfolding unknown
  unknown-Shrinks = search (shrinks_rules, back-Shrinks) depth 30 fits 4000

  exit-Shrinks : Shrinks {A = Mode} (λ c. (exited, c))
  exit-Shrinks = record { shorter = λ c. omega arith }

  choose-Shrinks : (cmd : Text) → Shrinks (choose e cmd)
  unfolding choose
  choose-Shrinks cmd =
      search
        (
          shrinks_rules, back-Shrinks, unknown-Shrinks, exit-Shrinks, generate_invitation-Shrinks,
          connect_with_inv-Shrinks, send_msg-Shrinks, create_group-Shrinks, join_group-Shrinks,
          group_msg-Shrinks, leave_group-Shrinks, group_information-Shrinks, discover-Shrinks,
        )
        depth 60 fits 4000

  pub on_read-Shrinks : (mode : Mode) (l : Option Text) → Shrinks (on_read e mode l)
  unfolding on_read enable
  on_read-Shrinks enabling none = search shrinks_rules depth 30 fits 4000
  on_read-Shrinks enabling (some word) = search shrinks_rules depth 30 fits 4000
  on_read-Shrinks choosing none = search shrinks_rules depth 30 fits 4000
  on_read-Shrinks choosing (some cmd) = choose-Shrinks (trim_space cmd)
