-- ===== src/Cli/Loop.antt =====
-- cli/runner.go: the loops that wait for the word that shows the commands, and for a command.
pub mod Shrinking
pub mod Reading
use didcomm_prober.Prelude.{
  ℕ, zero, suc, ◌+◌, Text, str, ◌==◌, ◌||◌, ◌&&◌, Bool, eqb, ltb, Option, none, some, List, [], ◌∷◌,
  if◌then◌else◌,
}
use didcomm_prober.Cli.Console.{
  Console, Cmd, Ending, done, waits, crashed, exited, Shown, failure, commands, ◌>>=◌, ◌>>◌, finish,
  show, on_console, trim_space,
}
use didcomm_prober.Cli.Commands.{
  CliEnv, generate_invitation, connect_with_inv, send_msg, create_group, join_group, group_msg,
  leave_group, group_information, discover,
}

-- `enableCommands`, and `basicCommands` from its label on
pub data Mode : Type 0 where
  enabling choosing : Mode

unfoldable pub set_dis_cmds : (ℕ → ℕ) → Cmd (Unit {0})
set_dis_cmds f c = (done tt, record c { dis_cmds = f c.dis_cmds })

-- `listen` resets the flag when it shows a text.
unfoldable pub listener_resets : Bool → ℕ → ℕ
listener_resets heard n = if heard && eqb n 1 then 0 else n

module _ (e : CliEnv) where
  -- a command, and back to `enableCommands`
  unfoldable pub back : Cmd (Unit {0}) → Cmd Mode
  unfolding set_dis_cmds
  back m = do m; set_dis_cmds (λ n. 0); finish enabling

  unfoldable pub unknown : Cmd Mode
  unfolding back set_dis_cmds listener_resets
  unknown = do
    on_console (λ c. set_dis_cmds (listener_resets (e.listened c)))
    on_console (λ c.
        if ltb 0 c.dis_cmds
        then (do show (failure (str "invalid command number, please try again")); finish choosing)
        else back (finish tt))

  -- the switch of `basicCommands`
  unfoldable pub choose : Text → Cmd Mode
  unfolding back unknown
  choose cmd =
      if cmd == str "1"
      then back (generate_invitation e)
      else if cmd == str "2"
      then back (connect_with_inv e)
      else if cmd == str "3"
      then back (send_msg e)
      else if cmd == str "4"
      then back (create_group e)
      else if cmd == str "5"
      then back (join_group e)
      else if cmd == str "6"
      then back (group_msg e)
      else if cmd == str "7"
      then back (leave_group e)
      else if cmd == str "8"
      then back (group_information e)
      else if cmd == str "9"
      then back (discover e)
      else if cmd == str "b"
      then back (finish tt)
      else if cmd == str "e"
      then (λ c. (exited, c))
      else unknown

  unfoldable pub enable : Text → Cmd Mode
  enable word = if word == str "c" || word == str "C" then finish choosing else finish enabling

  -- what is done with the next read
  unfoldable pub on_read : Mode → Option Text → Cmd Mode
  unfolding choose enable
  on_read enabling none = do
    show (failure (str "reading instruction failed, please try again"))
    finish enabling
  on_read enabling (some word) = enable (trim_space word)
  on_read choosing none = do
    show (failure (str "reading command number failed, please try again"))
    finish choosing
  on_read choosing (some cmd) = choose (trim_space cmd)

  unfoldable pub prompted : Mode → Console → Console
  prompted enabling c = c
  prompted choosing c = record c { shown = commands ∷ c.shown; dis_cmds = c.dis_cmds + 1 }

  unfoldable pub read_turn : Mode → Console → List (Option Text) → Ending Mode × Console
  unfolding on_read
  read_turn mode c [] = on_read mode none c
  read_turn mode c (l ∷ rest) = on_read mode l (record c { lines = rest })

  -- from one read to the next one
  unfoldable pub turn : Mode → Cmd Mode
  unfolding read_turn prompted
  turn mode c = read_turn mode (prompted mode c) c.lines

  -- The two functions that call each other, on fuel, as they need not come to an end: `none` where it
  -- is used up.
  unfoldable pub run : ℕ → Mode → Console → Option (Ending (Unit {0}) × Console)
  unfolding turn
  run zero mode c = none
  run (suc fuel) mode c = elim (turn mode c).0 [
    | done next ↦ run fuel next (turn mode c).1
    | waits ↦ some (waits, (turn mode c).1)
    | crashed ↦ some (crashed, (turn mode c).1)
    | exited ↦ some (exited, (turn mode c).1)
  ]
