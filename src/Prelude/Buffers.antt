-- ===== src/Prelude/Buffers.antt =====
-- Byte buffers of a fixed size that are filled from the left and trimmed of zero bytes.
use mathlib.Core.List.{reverse, reverse-reverse, reverse-cons, reverse-append}
use mathlib.Core.List.Permᴰ
use Prim.Native.Nat.{ℕ, zero, suc, ◌-◌, ◌≤◌, ◌<◌}
use mathlib.Core.List.{[], ◌∷◌, ◌++◌}
use mathlib.Core.Logic.{◌≢◌}
use mathlib.Core.Path.{◌≡◌, refl, ap, ◌∙◌}
use native.Mathlib.Omega.{arith}
use didcomm_prober.Prelude.Tests.{ltb, eqb, if◌then◌else◌}
use didcomm_prober.Prelude.Bytes.{Text}
use didcomm_prober.Prelude.Lists.{length, replicate, All}
use didcomm_prober.Prelude.MapLaws.{All-perm}
use didcomm_prober.Prelude.Errors.{Result, ok, panic}

abbrev pub nuls : ℕ → Text
nuls n = replicate n 0

trim_left_nul : Text → Text
trim_left_nul [] = []
trim_left_nul (b ∷ bs) = let rest = trim_left_nul bs in if eqb b 0 then rest else b ∷ bs

-- bytes.Trim(s, "\x00")
unfoldable pub trim_nul : Text → Text
unfolding trim_left_nul
trim_nul s = reverse (trim_left_nul (reverse (trim_left_nul s)))

-- A text written into a zeroed buffer of the given size, and the buffer trimmed; a panic if the
-- buffer is too short.
unfoldable pub buffered : Text → ℕ → Result Text
unfolding trim_nul
buffered t size = if ltb size (length t) then panic else ok (trim_nul (t ++ nuls (size - length t)))

-- No byte is zero.
abbrev pub HasNoNul : Text → Type 0
HasNoNul = All (λ b. b ≢ 0)

trim_left_nul_no_nul : (t u : Text) → HasNoNul t → t ≢ [] → trim_left_nul (t ++ u) ≡ t ++ u
unfolding trim_left_nul
trim_left_nul_no_nul [] u h ne = absurd (ne refl)
trim_left_nul_no_nul (b ∷ t) u h ne = ground arith

trim_left_nul_zeros : (n : ℕ) (t : Text) → trim_left_nul (nuls n ++ t) ≡ trim_left_nul t
unfolding trim_left_nul
trim_left_nul_zeros zero t = refl
trim_left_nul_zeros (suc n) t = ground (arith, trim_left_nul_zeros n t)

nuls_snoc : (n : ℕ) → nuls n ++ nuls 1 ≡ nuls (suc n)
nuls_snoc zero = refl
nuls_snoc (suc n) = ap (◌∷◌ 0) (nuls_snoc n)

reverse-nuls : (n : ℕ) → reverse (nuls n) ≡ nuls n
reverse-nuls zero = refl
reverse-nuls (suc n) =
    reverse-cons {A = ℕ} 0 (nuls n) ∙ ap (λ (x : Text). x ++ nuls 1) (reverse-nuls n) ∙ nuls_snoc n

reverse-HasNoNul : (t : Text) → HasNoNul t → HasNoNul (reverse t)
reverse-HasNoNul t h = All-perm (λ b. b ≢ 0) (Permᴰ.reverse t) h

trim_left_nul_clean : (t : Text) → HasNoNul t → trim_left_nul t ≡ t
unfolding trim_left_nul
trim_left_nul_clean [] h = refl
trim_left_nul_clean (b ∷ t) h = ground arith

-- the right end of the buffer
trim_right : (t : Text) (n : ℕ) → HasNoNul t → reverse (trim_left_nul (reverse (t ++ nuls n))) ≡ t
trim_right t n h =
    rw
      (
        reverse-append t (nuls n),
        reverse-nuls n,
        trim_left_nul_zeros n (reverse t),
        trim_left_nul_clean (reverse t) (reverse-HasNoNul t h),
      )
      (reverse-reverse t)

trim_left_nul_all : (n : ℕ) → trim_left_nul (nuls n) ≡ []
unfolding trim_left_nul
trim_left_nul_all zero = refl
trim_left_nul_all (suc n) = ground (arith, trim_left_nul_all n)

pub trim_nul_padded : (t : Text) (n : ℕ) → HasNoNul t → trim_nul (t ++ nuls n) ≡ t
unfolding trim_nul
trim_nul_padded [] n h = rw (trim_left_nul_all n)
trim_nul_padded (b ∷ t) n h =
    rw (trim_left_nul_no_nul (b ∷ t) (nuls n) h (ground arith)) (trim_right (b ∷ t) n h)

-- A text without zero bytes that fits the buffer comes out as it went in.
pub buffered_lem : (t : Text) (size : ℕ) → HasNoNul t → length t ≤ size → buffered t size ≡ ok t
unfolding buffered
buffered_lem t size h fits = ground (arith, trim_nul_padded t (size - length t) h)

-- And one that does not fit is a panic.
pub buffered_short : (t : Text) (size : ℕ) → size < length t → buffered t size ≡ panic
unfolding buffered
buffered_short t size h = ground arith
