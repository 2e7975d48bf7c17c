-- ===== src/DidComm/Discovery/Disclosed.antt =====
-- What a query of features discloses.
use didcomm_prober.Prelude.{
  ◌≡◌, ◌≢◌, ap, ◌∙◌, ◌⊎◌, inl, inr, Text, str, ◌==◌, eq_iff, true, false, some, List, [], ◌∷◌, ◌++◌,
  arith, All, Bool-cases, Option-cases,
}
use didcomm_prober.Domain.{Feature}
use didcomm_prober.DidComm.Discovery.{
  has_prefix, contains, split_last, with_prefix, with_id, matching, process_query,
}

-- A feature that a query asks for: by its id, or by the text before a final asterisk.
abbrev pub Asked : Text → Feature → Type 0
Asked query f = (f.id ≡ query) ⊎ ((p : Text) × (query ≡ p ++ str "*") × (has_prefix f.id p ≡ true))

split_last_joined : (q front end : Text) → split_last q ≡ some (front, end) → q ≡ front ++ end
unfolding split_last
split_last_joined [] front end h = cc
split_last_joined (b ∷ []) front end h = ground arith
split_last_joined (b ∷ c ∷ s) front end h = elim (Option-cases (split_last (c ∷ s))) [
  | inl e ↦ absurd (ground (arith, h, e))
  | inr ((f, l), e) ↦ ground (arith, h, e, split_last_joined (c ∷ s) f l e)
]

with_prefix-Asked :
    (q p : Text) (fs : List Feature) → q ≡ p ++ str "*" → All (Asked q) (with_prefix p fs)
unfolding with_prefix
with_prefix-Asked q p [] h = tt
with_prefix-Asked q p (f ∷ fs) h = elim (Bool-cases (has_prefix f.id p)) [
  | inl t ↦ rw t (inr (p, h, t), with_prefix-Asked q p fs h)
  | inr n ↦ rw n (with_prefix-Asked q p fs h)
]

with_id-Asked : (q : Text) (fs : List Feature) → All (Asked q) (with_id q fs)
unfolding with_id
with_id-Asked q [] = tt
with_id-Asked q (f ∷ fs) = elim (Bool-cases (f.id == q)) [
  | inl t ↦ rw t (inl ((eq_iff f.id q).0 t), tt)
  | inr n ↦ rw n (with_id-Asked q fs)
]

matching-Asked : (q : Text) (fs : List Feature) → All (Asked q) (matching q fs (split_last q))
unfolding matching
matching-Asked q fs = elim (Option-cases (split_last q)) [
  | inl e ↦ rw e tt
  | inr ((front, end), e) ↦ elim (Bool-cases (end == str "*")) [
    | inl t ↦
        rw (e, t)
          (with_prefix-Asked q front fs
            (split_last_joined q front end e ∙ ap (λ x. front ++ x) ((eq_iff end (str "*")).0 t)))
    | inr n ↦ rw (e, n) (with_id-Asked q fs)
  ]
]

-- A query that is neither empty nor an asterisk discloses only features that it asks for: a feature
-- whose id is the query, or begins with the text before the query's final asterisk.
pub process_query-Asked :
    (fs : List Feature) (query : Text)
    → query ≢ []
    → query ≢ str "*"
    → All (Asked query) (process_query fs query)
unfolding process_query
process_query-Asked fs query some_text not_all =
    elim (Bool-cases (contains query (str "https://didcomm.org/"))) [
      | inl t ↦ rw (first, second, t) (matching-Asked query fs)
      | inr n ↦ rw (first, second, n) tt
    ]
  where
    first : (query == []) ≡ false
    first = ground (arith, eq_iff query [])

    second : (query == str "*") ≡ false
    second = ground (arith, eq_iff query (str "*"))
