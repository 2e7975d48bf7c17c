-- ===== src/Cli/Console.antt =====
-- cli/runner.go: reading lines and showing text. Standard input is the list of the reads that are still
-- to come, `none` for one that fails before its first byte, and at its end every read fails. White
-- space and letters are those of ASCII.
use didcomm_prober.Prelude.{
  ℕ, Text, str, ◌==◌, Bool, true, false, ◌||◌, ◌&&◌, Option, none, some, List, [], ◌∷◌, leb, eqb,
  ◌+◌, Result, ok, err, panic, fail, if◌then◌else◌,
}
use mathlib.Core.List.{reverse}
use didcomm_prober.Prelude.Exec.{Exec}
use didcomm_prober.Domain.{GroupParams, Member}
use didcomm_prober.PubSub.Node.{Node}

-- What the user sees: a line, an error, or a title with its list; group info has its own form.
pub data Shown : Type 0 where
  line : Text → Bool → Shown
  failure : Text → Shown
  listed : Text → List Text → Shown
  group_info : GroupParams → List Member → Shown
  commands : Shown

pub record Console : Type 0 where
  pub node : Node
  pub lines : List (Option Text)
  pub shown : List Shown
  pub dis_cmds : ℕ

-- How a command ends: with a value, not at all, as it waits for another node or reads at the end of the
-- input again and again, by a panic, or by os.Exit.
pub data Ending (A : Type 0) : Type 0 where
  done : A → Ending A
  waits : Ending A
  crashed : Ending A
  exited : Ending A

abbrev pub Cmd : Type 0 → Type 0
Cmd A = Console → Ending A × Console

module _ {A B : Type 0} where
  abbrev pub after : Ending A → (A → Cmd B) → Cmd B
  after (done a) f c = f a c
  after waits f c = (waits, c)
  after crashed f c = (crashed, c)
  after exited f c = (exited, c)

  infixl 5 ◌>>=◌ ◌>>◌
  abbrev pub ◌>>=◌ : Cmd A → (A → Cmd B) → Cmd B
  ◌>>=◌ m f c = after (m c).0 f (m c).1

  abbrev pub ◌>>◌ : Cmd A → Cmd B → Cmd B
  m >> k = m >>= λ _. k

abbrev pub show : Shown → Cmd (Unit {0})
show s c = (done tt, record c { shown = s ∷ c.shown })

module _ {A : Type 0} where
  -- a command that depends on the console
  unfoldable pub on_console : (Console → Cmd A) → Cmd A
  on_console f c = f c c

  abbrev pub finish : A → Cmd A
  finish a c = (done a, c)

  unfoldable pub returned : Result A → Ending (Result A)
  returned (ok a) = done (ok a)
  returned (err e) = done (err e)
  returned panic = crashed

  -- a method of the node, whose error the command looks at
  unfoldable pub on_node : Exec Node A → Cmd (Result A)
  unfolding returned
  on_node m c = (returned (m c.node).0, record c { node = (m c.node).1 })

space : ℕ → Bool
space b = eqb b b' ' || (leb 9 b && leb b 13)

trim_left : Text → Text
unfolding space
trim_left [] = []
trim_left (b ∷ t) = let rest = trim_left t in if space b then rest else b ∷ t

-- strings.TrimSpace
unfoldable pub trim_space : Text → Text
unfolding trim_left
trim_space t = reverse (trim_left (reverse (trim_left t)))

unfoldable pub lower : ℕ → ℕ
lower b = if leb b'A' b && leb b b'Z' then b + 32 else b

-- strings.ToLower
unfoldable pub to_lower : Text → Text
unfolding lower
to_lower [] = []
to_lower (b ∷ t) = lower b ∷ to_lower t

-- the loop of `input`: a read that fails is repeated, at the end of the input for ever
unfoldable pub next_line : List (Option Text) → Option (Text × List (Option Text))
next_line [] = none
next_line (none ∷ rest) = next_line rest
next_line (some l ∷ rest) = some (l, rest)

unfoldable pub input : Cmd Text
unfolding next_line trim_space
input c = elim (next_line c.lines) [
  | none ↦ (waits, record c { lines = [] })
  | some (l, rest) ↦ (done (trim_space l), record c { lines = rest })
]

unfoldable pub valid_bool : Text → Result Bool
unfolding to_lower
valid_bool t =
    if to_lower t == str "y"
    then ok true
    else if to_lower t == str "n"
    then ok false
    else fail "invalid input for publisher"
