-- ===== src/PubSub/Validator/Inverse.antt =====
-- The loops of `Verify`: the inverse map, and the choice of its smallest set.
use mathlib.Core.List.{append_assoc, append-nil}
use didcomm_prober.Prelude.{
  ℕ, ◌≤◌, ◌<◌, ◌≡◌, refl, sym, ap, ◌∙◌, ◌≢◌, ◌⊎◌, inl, inr, Text, ◌==◌, eq_iff, Assoc, lookup,
  lookup-insert, true, false, Option, none, some, List, [], ◌∷◌, ◌++◌, arith, length, All, IsMap,
  insert-IsMap, All-of_lookup, Bool-cases, Option-cases, ltb, if◌then◌else◌,
}
use didcomm_prober.PubSub.Validator.Holders.{holders}
use didcomm_prober.PubSub.Validator.{add_state, invert, choose}

some_unless_empty : List Text → Option (List Text)
some_unless_empty [] = none
some_unless_empty (m ∷ ms) = some (m ∷ ms)

join : Option (List Text) → List Text → Option (List Text)
unfolding some_unless_empty
join none hs = some_unless_empty hs
join (some ms) hs = some (ms ++ hs)

lookup-add_state :
    (m w v : Text) (mems : Assoc (List Text)) (hs : List Text)
    → join (lookup v (add_state m w mems)) hs ≡ join (lookup v mems) (if w == v then m ∷ hs else hs)
unfolding add_state join
lookup-add_state m w v mems hs = elim (Option-cases (lookup w mems)) [
  | inl e ↦ ground (arith, e, lookup-insert w v (m ∷ []) mems, eq_iff w v)
  | inr (ms, e) ↦
      ground
        (arith, e, lookup-insert w v (ms ++ m ∷ []) mems, eq_iff w v, append_assoc ms (m ∷ []) hs)
]

lookup-invert_from :
    (v : Text) (states : List (Text × Text)) (mems : Assoc (List Text))
    → lookup v (invert states mems) ≡ join (lookup v mems) (holders v states)
unfolding invert holders join
lookup-invert_from v [] mems = elim (Option-cases (lookup v mems)) [
  | inl e ↦ rw (e, join)
  | inr (ms, e) ↦ rw (e, join) (ap some (sym (append-nil ms)))
]
lookup-invert_from v ((m, w) ∷ states) mems =
    lookup-invert_from v states (add_state m w mems)
    ∙ lookup-add_state m w v mems (holders v states)

add_state-IsMap : (m w : Text) (mems : Assoc (List Text)) → IsMap mems → IsMap (add_state m w mems)
unfolding add_state
add_state-IsMap m w mems h = elim (Option-cases (lookup w mems)) [
  | inl e ↦ rw (e, add_state) (insert-IsMap w (m ∷ []) mems h)
  | inr (ms, e) ↦ rw (e, add_state) (insert-IsMap w (ms ++ m ∷ []) mems h)
]

invert-IsMap :
    (states : List (Text × Text)) (mems : Assoc (List Text))
    → IsMap mems
    → IsMap (invert states mems)
unfolding invert
invert-IsMap [] mems h = h
invert-IsMap ((m, w) ∷ states) mems h =
    invert-IsMap states (add_state m w mems) (add_state-IsMap m w mems h)

-- An entry of the inverse map: the members that hold its hash, and there is one.
abbrev pub IsClass : List (Text × Text) → Text × List Text → Type 0
IsClass states e = (e.1 ≡ holders e.0 states) × (e.1 ≢ [])

some_unless_empty_nonempty : (hs : List Text) → hs ≢ [] → some_unless_empty hs ≡ some hs
unfolding some_unless_empty
some_unless_empty_nonempty [] h = absurd (h refl)
some_unless_empty_nonempty (x ∷ hs) h = refl

some_unless_empty-cases :
    (hs ms : List Text) → some_unless_empty hs ≡ some ms → (ms ≡ hs) × (ms ≢ [])
unfolding some_unless_empty
some_unless_empty-cases [] ms e = cc
some_unless_empty-cases (h ∷ hs) ms e = ground arith

pub invert-classes : (states : List (Text × Text)) → All (IsClass states) (invert states [])
unfolding join lookup
invert-classes states =
    All-of_lookup (IsClass states) (invert states []) (invert-IsMap states [] tt) (λ k ms e.
      some_unless_empty-cases (holders k states) ms (sym (lookup-invert_from k states []) ∙ e))

module _ (v : Text) (ms : List Text) (es : List (Text × List Text)) (n : ℕ) (inv : List Text) where
  choose_smaller : ltb (length ms) n ≡ true → choose ((v, ms) ∷ es) n inv ≡ choose es (length ms) ms
  unfolding choose
  choose_smaller h = rw (h, choose)

  choose_not_smaller : ltb (length ms) n ≡ false → choose ((v, ms) ∷ es) n inv ≡ choose es n inv
  unfolding choose
  choose_not_smaller h = rw (h, choose)

-- The loop keeps a set only if it is smaller than what it had, and ends below every set.
pub choose-le :
    (es : List (Text × List Text)) (n : ℕ) (inv : List Text) (d : ℕ) (i : List Text)
    → choose es n inv ≡ (d, i)
    → (d ≤ n) × All (λ e. d ≤ length e.1) es
unfolding choose
choose-le [] n inv d i e = (ground arith, tt)
choose-le ((v, ms) ∷ es) n inv d i e = elim (Bool-cases (ltb (length ms) n)) [
  | inl smaller ↦
      let (below, all) =
        choose-le es (length ms) ms d i (sym (choose_smaller v ms es n inv smaller) ∙ e) in
      (ground arith, (below, all))
  | inr not_smaller ↦
      let (below, all) =
        choose-le es n inv d i (sym (choose_not_smaller v ms es n inv not_smaller) ∙ e) in
      (below, (ground arith, all))
]

-- It ends with what it began with, or with the members of a smaller set.
pub choose-cases :
    (P : Text × List Text → Type 0) (es : List (Text × List Text)) (n : ℕ) (inv : List Text) (d : ℕ)
    (i : List Text)
    → All P es
    → choose es n inv ≡ (d, i)
    → ((d ≡ n) × (i ≡ inv)) ⊎ ((v : Text) × P (v, i) × (d ≡ length i) × (d < n))
unfolding choose
choose-cases P [] n inv d i h e = inl (ground arith)
choose-cases P ((v, ms) ∷ es) n inv d i h e = elim (Bool-cases (ltb (length ms) n)) [
  | inl smaller ↦
      elim (choose-cases P es (length ms) ms d i h.1
        (sym (choose_smaller v ms es n inv smaller) ∙ e)) [
          | inl same ↦ inr (v, rw same.1 h.0, rw same.1 same.0, ground arith)
          | inr (w, p, eq, lt) ↦ inr (w, p, eq, ground arith)
        ]
  | inr not_smaller ↦
      choose-cases P es n inv d i h.1 (sym (choose_not_smaller v ms es n inv not_smaller) ∙ e)
]

-- A hash that somebody holds has its entry in the inverse map.
pub lookup-invert :
    (v : Text) (states : List (Text × Text))
    → holders v states ≢ []
    → lookup v (invert states []) ≡ some (holders v states)
unfolding join some_unless_empty lookup
lookup-invert v states h =
    lookup-invert_from v states [] ∙ some_unless_empty_nonempty (holders v states) h
