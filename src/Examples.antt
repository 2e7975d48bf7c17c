-- ===== src/Examples.antt =====
-- Concrete runs: values that the hypotheses of the theorems hold of.
pub mod Groups
pub mod Syncing
pub mod Channels
pub mod Packing
pub mod Codecs
pub mod Connecting
pub mod Messages
pub mod Prober
pub mod Nodes
pub mod Agents
pub mod Transports
pub mod Deliveries
pub mod Agreements
pub mod Commands
pub mod Starting
use mathlib.Core.List.{Permᴰ}
use mathlib.Core.List.Permᴰ
use didcomm_prober.Prelude.{Text, str, List, [], ◌∷◌, ◌++◌, Assoc, ok, true, IsRange}
use didcomm_prober.Domain.{Member}
use didcomm_prober.PubSub.Validator.{Digest}

-- a range in the order of the entries
abbrev pub in_order : {A : Type 0} → List A → List A
in_order xs = xs

pub in_order-IsRange : {A : Type 0} → IsRange (in_order {A = A})
in_order-IsRange xs = Permᴰ.refl xs

abbrev pub alice : Text
alice = str "alice"

abbrev pub bob : Text
bob = str "bob"

abbrev pub carol : Text
carol = str "carol"

abbrev pub chess : Text
chess = str "chess"

abbrev pub member : Text → Member
member l = record { active = true; publisher = true; label = l; inv = []; pub_endpoint = str "tcp" }

-- The members are written as their labels with a full stop, and the sum is what is summed.
abbrev pub written : List Member → Text
written [] = str "."
written (m ∷ ms) = m.label ++ written ms

abbrev pub digest : Digest
digest = record { marshal = λ ms. ok (written ms); sha256 = λ t. t; base64 = λ t. t }

abbrev pub agreeing : Assoc Text
agreeing = (alice, str "x") ∷ (bob, str "x") ∷ []

abbrev pub split_three : Assoc Text
split_three = (alice, str "x") ∷ (bob, str "y") ∷ (carol, str "x") ∷ []
