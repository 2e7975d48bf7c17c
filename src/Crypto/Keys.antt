-- ===== src/Crypto/Keys.antt =====
-- crypto/keys.go: the key pair of each connection, and the pair for invitations. Key pairs come from
-- box.GenerateKey, whose answer is an argument. Keys are arrays of 32 bytes, read as slices.
pub mod Lookup
use didcomm_prober.Prelude.{
  Text, ◌==◌, Assoc, lookup, insert, Option, none, some, List, [], ◌∷◌, Result, ok, err, panic,
  fail, if◌then◌else◌,
}

pub record Keys : Type 0 where
  pub public : Text
  pub private : Text

pub record KeyManager : Type 0 where
  pub inv_pub_key : Option Text
  pub inv_prv_key : Option Text
  pub key_store : Assoc Keys

pub new_key_manager : KeyManager
new_key_manager = record { inv_pub_key = none; inv_prv_key = none; key_store = [] }

unfoldable pub generate_keys : Result Keys → Text → KeyManager → Result (Unit {0}) × KeyManager
generate_keys generated peer k = elim generated [
  | ok ks ↦ (ok tt, record k { key_store = insert peer ks k.key_store })
  | err e ↦ (err e, k)
  | panic ↦ (panic, k)
]

unfoldable pub private_key : Text → KeyManager → Result Text
private_key peer k = elim (lookup peer k.key_store) [
  | none ↦ fail "no private key found for the connection"
  | some ks ↦ ok ks.private
]

unfoldable pub public_key : Text → KeyManager → Result Text
public_key peer k = elim (lookup peer k.key_store) [
  | none ↦ fail "no public key found for the connection"
  | some ks ↦ ok ks.public
]

-- `storePubKey, _ := k.PublicKey(n)`: nil on an error
or_nil : Result Text → Text
or_nil (ok t) = t
or_nil (err e) = []
or_nil panic = []

-- The callback of `Range`: the first name whose public key is the one asked for, or the empty name.
find_name : Text → KeyManager → List (Text × Keys) → Text
unfolding or_nil public_key
find_name key k [] = []
find_name key k ((n, ks) ∷ rest) =
    if or_nil (public_key n k) == key then n else find_name key k rest

-- `order` is the order of the range over the key store.
unfoldable pub peer : (List (Text × Keys) → List (Text × Keys)) → Text → KeyManager → Result Text
unfolding find_name
peer order key k =
    let name = find_name key k (order k.key_store) in
    if name == [] then fail "could not find the requested public key" else ok name

fresh_inv_keys : Result Keys → KeyManager → Result (Unit {0}) × KeyManager
fresh_inv_keys (ok ks) k =
    (ok tt, record k { inv_prv_key = some ks.private; inv_pub_key = some ks.public })
fresh_inv_keys (err e) k = (err e, k)
fresh_inv_keys panic k = (panic, k)

unfoldable pub generate_inv_keys : Result Keys → KeyManager → Result (Unit {0}) × KeyManager
unfolding fresh_inv_keys
generate_inv_keys generated k = elim k.inv_prv_key [
  | none ↦ fresh_inv_keys generated k
  | some prv ↦ elim k.inv_pub_key [ none ↦ fresh_inv_keys generated k | some key ↦ (ok tt, k) ]
]

-- A read through a nil pointer, before any invitation was made, is a panic.
deref : Option Text → Result Text
deref none = panic
deref (some t) = ok t

unfoldable pub inv_private_key : KeyManager → Result Text
unfolding deref
inv_private_key k = deref k.inv_prv_key

unfoldable pub inv_public_key : KeyManager → Result Text
unfolding deref
inv_public_key k = deref k.inv_pub_key
