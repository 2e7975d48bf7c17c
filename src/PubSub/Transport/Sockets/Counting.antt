-- ===== src/PubSub/Transport/Sockets/Counting.antt =====
-- How many of the calls that a socket accepted satisfy a test, and how many more a method adds.
use Prim.Native.String.{String}
use didcomm_prober.Prelude.{
  ℕ, ◌+◌, ◌≡◌, refl, sym, subst, Text, Bool, [], ◌∷◌, arith, Result-cases, inl, inr, Result, ok,
}
use didcomm_prober.Prelude.Sums.{one_if}
use didcomm_prober.Prelude.Exec.{Exec, pure, lift, wrapping, continue, ◌>>=◌, ◌>>◌}
use didcomm_prober.PubSub.Transport.Sockets.{Call, Socket, Answers, call, accepted}

-- how many of the accepted calls satisfy a test
abbrev pub times : (Call → Bool) → Socket → ℕ
times f [] = 0
times f (c ∷ s) = one_if (f c) + times f s

-- A method that reports no error adds `n` calls that satisfy the test.
unfoldable pub Adds : (Call → Bool) → ℕ → Exec Socket (Unit {0}) → Type 0
Adds f n m = (s : Socket) → (m s).0 ≡ ok tt → times f (m s).1 ≡ n + times f s

pub call-Adds :
    (f : Call → Bool) (answers : Answers) (why : String) (c : Call)
    → Adds f (one_if (f c)) (call answers why c)
unfolding Adds call accepted
call-Adds f answers why c s done = elim (Result-cases (answers s c)) [
  | inl (u, e) ↦ rw e refl
  | inr (inl (e, h)) ↦ absurd (ground (arith, h))
  | inr (inr h) ↦ absurd (ground (arith, h))
]

pub then-Adds :
    (f : Call → Bool) (n k : ℕ) (m l : Exec Socket (Unit {0}))
    → Adds f n m
    → Adds f k l
    → Adds f (n + k) (m >> l)
unfolding Adds
then-Adds f n k m l hm hl s done = elim (Result-cases (m s).0) [
  | inl (u, e) ↦
      let next : (l (m s).1).0 ≡ ok tt = ground (arith, done, e) in
      rw (e, continue) (omega (arith, hm s e, hl (m s).1 next))
  | inr (inl (e, h)) ↦ absurd (ground (arith, h))
  | inr (inr h) ↦ absurd (ground (arith, h))
]

pub pure-Adds : (f : Call → Bool) → Adds f 0 (pure tt)
unfolding Adds
pure-Adds f s done = omega arith

pub lift-Adds :
    (f : Call → Bool) (n : ℕ) (r : Result Text) (t : Text) (k : Text → Exec Socket (Unit {0}))
    → r ≡ ok t
    → Adds f n (k t)
    → Adds f n (lift r >>= k)
lift-Adds f n r t k e h = subst (λ x. Adds f n (lift x >>= k)) (sym e) h

pub wrapping-Adds :
    (f : Call → Bool) (n : ℕ) (why : String) (m : Exec Socket (Unit {0}))
    → Adds f n m
    → Adds f n (wrapping why m)
unfolding Adds
wrapping-Adds f n why m h s done = elim (Result-cases (m s).0) [
  | inl (u, e) ↦ h s e
  | inr (inl (e, h)) ↦ absurd (ground (arith, h))
  | inr (inr h) ↦ absurd (ground (arith, h))
]
