-- ===== src/Crypto/Keys/Lookup.antt =====
-- Which connection a message's recipient key belongs to.
use mathlib.Core.List.Permᴰ
use didcomm_prober.Prelude.{
  ◌≡◌, refl, sym, subst, ◌≢◌, ◌⊎◌, inl, inr, Text, ◌==◌, eq_iff, lookup, some, List, [], ◌∷◌, arith,
  All, All-perm, All-of_lookup, lookup-All, IsMap, IsRange, Option-cases, Bool-cases, Result, ok,
  err, panic,
}
use didcomm_prober.Crypto.Keys.{Keys, KeyManager, public_key, peer, find_name, or_nil}

find_name_cases :
    (key : Text) (k : KeyManager) (es : List (Text × Keys))
    → (find_name key k es ≡ []) ⊎ (or_nil (public_key (find_name key k es) k) ≡ key)
unfolding find_name
find_name_cases key k [] = inl refl
find_name_cases key k ((n, ks) ∷ es) = elim (Bool-cases (or_nil (public_key n k) == key)) [
  | inl hit ↦ inr (rw (hit, find_name) ((eq_iff _ key).0 hit))
  | inr miss ↦ rw (miss, find_name) (find_name_cases key k es)
]

ok_of_or_nil : (r : Result Text) (key : Text) → or_nil r ≡ key → key ≢ [] → r ≡ ok key
unfolding or_nil
ok_of_or_nil (ok t) key h ne = cc
ok_of_or_nil (err e) key h ne = absurd (ne (sym h))
ok_of_or_nil panic key h ne = absurd (ne (sym h))

-- A name that `Peer` returns has the key that was asked for, if that key is not empty.
pub peer_sound :
    (order : List (Text × Keys) → List (Text × Keys)) (key n : Text) (k : KeyManager)
    → key ≢ []
    → peer order key k ≡ ok n
    → public_key n k ≡ ok key
unfolding peer
peer_sound order key n k nonempty h =
    let name = find_name key k (order k.key_store) in
    let is_n : name ≡ n = ground (arith, h) in
    let named : name ≢ [] = ground (arith, h, eq_iff name []) in
    elim (find_name_cases key k (order k.key_store)) [
      | inl e ↦ absurd (named e)
      | inr e ↦
          subst (λ x. public_key x k ≡ ok key) is_n
            (ok_of_or_nil (public_key name k) key e nonempty)
    ]

-- No other connection has the key.
abbrev pub IsOnlyHolder : Text → Text → KeyManager → Type 0
IsOnlyHolder n key k =
    (m : Text) (ks : Keys) → lookup m k.key_store ≡ some ks → ks.public ≡ key → m ≡ n

module _ (key n : Text) (k : KeyManager) (only : IsOnlyHolder n key k) where
  find_name_only :
      (es : List (Text × Keys))
      → All (λ e. lookup e.0 k.key_store ≡ some e.1) es
      → (find_name key k es ≡ n) ⊎ All (λ e. e.1.public ≢ key) es
  unfolding find_name public_key or_nil
  find_name_only [] h = inr tt
  find_name_only ((m, ks) ∷ es) h = elim (Bool-cases (ks.public == key)) [
    | inl hit ↦ inl (ground (arith, h.0, hit, eq_iff ks.public key, only m ks h.0))
    | inr miss ↦ elim (find_name_only es h.1) [
      | inl found ↦ inl (ground (arith, h.0, miss, found))
      | inr none_found ↦ inr (ground (arith, miss, eq_iff ks.public key), none_found)
    ]
  ]

  -- `Peer` finds the connection of a key that no other connection has, in whatever order the store
  -- is visited, if the connection's label is not empty.
  pub peer_complete :
      (order : List (Text × Keys) → List (Text × Keys))
      → IsRange order
      → IsMap k.key_store
      → n ≢ []
      → public_key n k ≡ ok key
      → peer order key k ≡ ok n
  unfolding peer public_key
  peer_complete order ranges distinct named held =
      let stored =
        All-of_lookup (λ e. lookup e.0 k.key_store ≡ some e.1) k.key_store distinct (λ m ks e. e) in
      elim (Option-cases (lookup n k.key_store)) [
        | inl e ↦ absurd (ground (arith, e))
        | inr (ks, e) ↦
            elim (find_name_only (order k.key_store)
              (All-perm (λ e. lookup e.0 k.key_store ≡ some e.1) (ranges k.key_store) stored)) [
                | inl found ↦ ground (arith, found, eq_iff n [])
                | inr missed ↦ absurd (
                    lookup-All (λ e. e.1.public ≢ key) k.key_store n ks
                      (All-perm (λ e. e.1.public ≢ key) (Permᴰ.symm (ranges k.key_store)) missed) e
                      (ground (arith, e)))
              ]
      ]
