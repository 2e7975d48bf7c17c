-- ===== src/PubSub/Validator/Order.antt =====
-- The order that `Calculate` brings the members into does not depend on the order of the map.
use mathlib.Core.HLevel.{hedberg}
use mathlib.Core.List.{Perm, Permᴰ, Nodup, Nodup-cons, mem-cons_self}
use mathlib.Core.List.Permᴰ
use mathlib.Core.List.Perm
use mathlib.Core.Logic.{∥∥₁_elim}
use didcomm_prober.Prelude.{
  ◌≡◌, refl, ap, ◌∙◌, ◌≢◌, Text, eq_iff, List, [], ◌∷◌, arith, Text-discrete, text_le_total,
  text_le_antisymm, text_le_trans,
}
use didcomm_prober.Domain.{Member}
use didcomm_prober.PubSub.Validator.{
  Digest, labels, order, calculate, insert_sorted, sort_strings, first_labelled, pick_labelled,
}

insert_sorted_comm :
    (s t : Text) (ts : List Text)
    → insert_sorted s (insert_sorted t ts) ≡ insert_sorted t (insert_sorted s ts)
unfolding insert_sorted
insert_sorted_comm s t [] = ground (arith, text_le_total s t, text_le_antisymm s t)
insert_sorted_comm s t (u ∷ ts) = ground (
  arith,
  insert_sorted_comm s t ts,
  text_le_total s t,
  text_le_antisymm s t,
  text_le_trans s t u,
  text_le_trans t s u,
)

sort_strings-perm : {ss ts : List Text} → Permᴰ ss ts → sort_strings ss ≡ sort_strings ts
unfolding sort_strings
sort_strings-perm Permᴰ.nil = refl
sort_strings-perm (Permᴰ.cons e p) = cc (sort_strings-perm p)
sort_strings-perm (Permᴰ.swap {a = s} {b = t} {l = l} e f) =
    cc (insert_sorted_comm s t (sort_strings l))
sort_strings-perm (Permᴰ.trans p q) = sort_strings-perm p ∙ sort_strings-perm q

abbrev label_of : Member → Text
label_of m = m.label

Nodup-heads : {s t : Text} {ts : List Text} → Nodup (s ∷ t ∷ ts) → s ≢ t
Nodup-heads d h = (Nodup-cons.0 d).0 (rw h mem-cons_self)

first_labelled_swap :
    (m n : Member) (ms : List Member)
    → m.label ≢ n.label
    → (l : Text) → first_labelled l (m ∷ n ∷ ms) ≡ first_labelled l (n ∷ m ∷ ms)
unfolding first_labelled
first_labelled_swap m n ms ne l = ground (arith, eq_iff m.label l, eq_iff n.label l)

-- With distinct labels the member with a label is the same wherever it stands.
first_labelled-perm :
    {g h : List Member}
    → Permᴰ g h
    → Nodup (labels g)
    → (l : Text) → first_labelled l g ≡ first_labelled l h
unfolding first_labelled
first_labelled-perm Permᴰ.nil d l = refl
first_labelled-perm (Permᴰ.cons {a = m} {b = n} e p) d l =
    ground (arith, first_labelled-perm p (Nodup-cons.0 d).1 l, ap label_of e)
first_labelled-perm (Permᴰ.swap {a = m} {b = n} {l = rest} e f) d l =
    rw (← e, ← f) (first_labelled_swap m n rest (Nodup-heads d) l)
first_labelled-perm (Permᴰ.trans p q) d l =
    first_labelled-perm p d l
    ∙ first_labelled-perm q ((Perm.Nodup-iff ∣ Permᴰ.map label_of p ∣₁).0 d) l

pick_labelled-eq :
    (ls : List Text) (g h : List Member)
    → ((l : Text) → first_labelled l g ≡ first_labelled l h)
    → pick_labelled ls g ≡ pick_labelled ls h
unfolding pick_labelled
pick_labelled-eq [] g h e = refl
pick_labelled-eq (l ∷ ls) g h e = cc (e l, pick_labelled-eq ls g h e)

order-permᴰ : (g h : List Member) → Permᴰ g h → Nodup (labels g) → order g ≡ order h
unfolding order
order-permᴰ g h p d = cc (
  sort_strings-perm (Permᴰ.map label_of p),
  pick_labelled-eq (sort_strings (labels g)) g h (first_labelled-perm p d),
)

Member-discrete : Discrete Member
Member-discrete = hlevel Text-discrete

pub order-perm : (g h : List Member) → Perm g h → Nodup (labels g) → order g ≡ order h
order-perm g h p d =
    ∥∥₁_elim p (hedberg (hlevel Member-discrete) (order g) (order h)) (λ q. order-permᴰ g h q d)

-- Two nodes that hold the same members under distinct labels, in whatever order their maps give
-- them, calculate the same checksum.
pub calculate-perm :
    (d : Digest) (g h : List Member) → Perm g h → Nodup (labels g) → calculate d g ≡ calculate d h
unfolding calculate
calculate-perm d g h p u = rw (order-perm g h p u)
