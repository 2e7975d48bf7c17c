-- ===== src/Cli/Loop/Reading.antt =====
-- cli/runner.go: when the command loop comes to an end.
use didcomm_prober.Prelude.{none, ℕ, ◌≡◌, ◌⊎◌, some}
use didcomm_prober.Cli.Console.{Console, Ending, waits, crashed, exited}
use didcomm_prober.Cli.Commands.{CliEnv}
use didcomm_prober.Cli.Loop.{Mode, run}

-- A command line that reads no more: a command does not come back, or the process is gone.
abbrev pub IsOver : Ending (Unit {0}) → Type 0
IsOver r = (r ≡ waits) ⊎ (r ≡ crashed) ⊎ (r ≡ exited)

module _ (e : CliEnv) where
  -- It comes to an end within the fuel, or never.
  abbrev pub Settled : ℕ → Mode → Console → Type 0
  Settled fuel mode c =
      ((r : Ending (Unit {0}) × Console) × (run e fuel mode c ≡ some r) × IsOver r.0)
      ⊎ ((k : ℕ) → run e k mode c ≡ none)
