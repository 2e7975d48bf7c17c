-- ===== src/Crypto/Cipher.antt =====
-- crypto/cipher.go. The ciphers are libsodium's; their exit codes are dropped, so a box that does not
-- open yields whatever libsodium returned.
use mathlib.Core.List.{append_assoc, append-nil}
use didcomm_prober.Prelude.{
  ℕ, zero, suc, ◌+◌, ◌-◌, ◌≤◌, ◌<◌, ◌≡◌, refl, sym, ap, ◌∙◌, Text, Option, none, some, [], ◌∷◌,
  ◌++◌, arith, ltb, eqb, length, length-append, length-replicate, take, replicate, Result, ok,
  Bool-cases, inl, inr, if◌then◌else◌,
}
use didcomm_prober.Prelude.Int.{ℤ}

-- cryptobox and chacha20poly1305ietf of libsodium-go
pub record Sodium : Type 0 where
  pub box_easy : Text → Text → Text → Text → Text × ℤ
  pub box_open_easy : Text → Text → Text → Text → Text × ℤ
  pub box_seal : Text → Text → Text × ℤ
  pub box_seal_open : Text → Text → Text → Text × ℤ
  pub aead_encrypt : Text → Text → Text → Text → Text × Text
  pub aead_decrypt : Text → Text → Text → Text → Text → Result Text
  pub aead_nonce_bytes : ℕ
  pub aead_key_bytes : ℕ

abbrev pub nonce_bytes : ℕ
nonce_bytes = 24

-- the loop of `modifyNonce`, on fuel
pad_nonce : ℕ → Text → Option Text
pad_nonce zero nonce = none
pad_nonce (suc fuel) nonce =
    let rest = pad_nonce fuel (nonce ++ 48 ∷ []) in
    if eqb (length nonce) nonce_bytes then some nonce else rest

pub modify_nonce : Text → Option Text
modify_nonce nonce =
    if ltb (length nonce) nonce_bytes
    then pad_nonce (suc nonce_bytes) nonce
    else if ltb nonce_bytes (length nonce)
    then some (take nonce_bytes nonce)
    else some nonce

-- `copy(converted[:], t)` into an array of n zero bytes
unfoldable pub copied : ℕ → Text → Text
copied n t = take n (t ++ replicate n 0)

or_empty : Option Text → Text
or_empty none = []
or_empty (some t) = t

module _ (lib : Sodium) where
  unfoldable pub box : Text → Text → Text → Text → Result Text
  unfolding or_empty
  box payload nonce peer_pub_key my_sec_key =
      ok (lib.box_easy payload (or_empty (modify_nonce nonce)) peer_pub_key my_sec_key).0

  unfoldable pub box_open : Text → Text → Text → Text → Result Text
  unfolding or_empty
  box_open cipher nonce peer_pub_key my_sec_key =
      ok (lib.box_open_easy cipher (or_empty (modify_nonce nonce)) peer_pub_key my_sec_key).0

  unfoldable pub seal_box : Text → Text → Result Text
  seal_box payload peer_pub_key = ok (lib.box_seal payload peer_pub_key).0

  unfoldable pub seal_box_open : Text → Text → Text → Result Text
  seal_box_open cipher peer_pub_key my_sec_key =
      ok (lib.box_seal_open cipher peer_pub_key my_sec_key).0

  unfoldable pub encrypt_detached : Text → Text → Text → Text → Result (Text × Text)
  unfolding copied
  encrypt_detached msg protected_val nonce key = ok (
      lib.aead_encrypt msg protected_val (copied lib.aead_nonce_bytes nonce)
        (copied lib.aead_key_bytes key))

  unfoldable pub decrypt_detached : Text → Text → Text → Text → Text → Result Text
  unfolding copied
  decrypt_detached cipher mac protected_val nonce key =
      lib.aead_decrypt cipher mac protected_val (copied lib.aead_nonce_bytes nonce)
        (copied lib.aead_key_bytes key)

replicate_next :
    (n : ℕ) (t : Text)
    → n < nonce_bytes
    → (t ++ 48 ∷ []) ++ replicate (nonce_bytes - suc n) 48 ≡ t ++ replicate (nonce_bytes - n) 48
replicate_next n t h =
    let e : nonce_bytes - n ≡ suc (nonce_bytes - suc n) = omega arith in
    rw e (append_assoc t (48 ∷ []) (replicate (nonce_bytes - suc n) 48))

pad_nonce_lem :
    (fuel : ℕ) (nonce : Text)
    → length nonce ≤ nonce_bytes
    → nonce_bytes < length nonce + fuel
    → pad_nonce fuel nonce ≡ some (nonce ++ replicate (nonce_bytes - length nonce) 48)
unfolding pad_nonce
pad_nonce_lem zero nonce h k = absurd (omega arith)
pad_nonce_lem (suc fuel) nonce h k =
    let longer : length (nonce ++ 48 ∷ []) ≡ suc (length nonce) =
      omega (arith, length-append nonce (48 ∷ [])) in
    elim (Bool-cases (eqb (length nonce) nonce_bytes)) [
      | inl full ↦ let e : nonce_bytes - length nonce ≡ 0 = ground arith in rw (full, e, append-nil)
      | inr short ↦ rw short (
          pad_nonce_lem fuel (nonce ++ 48 ∷ []) (ground (arith, longer)) (omega (arith, longer))
          ∙ ap some (rw longer (replicate_next (length nonce) nonce (ground arith))))
    ]

take_all : (n : ℕ) (t : Text) → length t ≡ n → take n t ≡ t
take_all zero [] h = refl
take_all zero (b ∷ t) h = absurd (omega arith)
take_all (suc n) [] h = refl
take_all (suc n) (b ∷ t) h = ap (◌∷◌ b) (take_all n t (omega arith))

length-take : (n : ℕ) (t : Text) → n ≤ length t → length (take n t) ≡ n
length-take zero t h = refl
length-take (suc n) [] h = absurd (omega arith)
length-take (suc n) (b ∷ t) h = ap suc (length-take n t (omega arith))

take-append : (n : ℕ) (t u : Text) → n ≤ length t → take n (t ++ u) ≡ take n t
take-append zero t u h = refl
take-append (suc n) [] u h = absurd (omega arith)
take-append (suc n) (b ∷ t) u h = ap (◌∷◌ b) (take-append n t u (omega arith))

abbrev pub padded : Text → Text
padded nonce = nonce ++ replicate (nonce_bytes - length nonce) 48

length-padded : (nonce : Text) → nonce_bytes ≤ length (padded nonce)
length-padded nonce = omega (
  arith,
  length-append nonce (replicate (nonce_bytes - length nonce) 48),
  length-replicate {A = ℕ} (nonce_bytes - length nonce) 48,
)

modify_nonce-eq : (nonce : Text) → modify_nonce nonce ≡ some (take nonce_bytes (padded nonce))
unfolding modify_nonce
modify_nonce-eq nonce = elim (Bool-cases (ltb (length nonce) nonce_bytes)) [
  | inl short ↦
      let size : length (padded nonce) ≡ nonce_bytes = ground (
        arith,
        length-append nonce (replicate (nonce_bytes - length nonce) 48),
        length-replicate {A = ℕ} (nonce_bytes - length nonce) 48,
      ) in
      rw short (
        pad_nonce_lem (suc nonce_bytes) nonce (ground arith) (omega arith)
        ∙ ap some (sym (take_all nonce_bytes (padded nonce) size)))
  | inr enough ↦
      let cut =
        take-append nonce_bytes nonce (replicate (nonce_bytes - length nonce) 48) (ground arith) in
      elim (Bool-cases (ltb nonce_bytes (length nonce))) [
        | inl long ↦ rw (enough, long) (ap some (sym cut))
        | inr exact ↦
            rw (enough, exact) (ap some (sym (cut ∙ take_all nonce_bytes nonce (ground arith))))
      ]
]

-- The loop ends, and the nonce that the boxes get is the given one cut or filled up with the digit 0
-- to exactly 24 bytes.
pub modify_nonce_lem :
    (nonce : Text)
    → (modify_nonce nonce ≡ some (take nonce_bytes (padded nonce)))
      × (length (take nonce_bytes (padded nonce)) ≡ nonce_bytes)
modify_nonce_lem nonce =
    (modify_nonce-eq nonce, length-take nonce_bytes (padded nonce) (length-padded nonce))
