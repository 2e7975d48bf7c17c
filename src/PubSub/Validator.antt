-- ===== src/PubSub/Validator.antt =====
-- pubsub/validator/init.go: the checksum of a member set, and the vote on the checksums of a group.
pub mod Order
pub mod Holders
pub mod Inverse
pub mod Vote
pub mod Joins
use didcomm_prober.Prelude.{
  ℕ, Text, ◌==◌, Assoc, lookup, insert, Bool, true, false, Option, none, some, List, [], ◌∷◌, ◌++◌,
  map, length, Result, ok, err, panic, fail, wrap, ◌>>=◌, ltb, eqb, text_le, if◌then◌else◌,
}
use didcomm_prober.Prelude.Buffers.{buffered}
use didcomm_prober.Domain.{Member}

-- What `Calculate` calls: json.Marshal on a member list, SHA-256, and base64.StdEncoding.
pub record Digest : Type 0 where
  pub marshal : List Member → Result Text
  pub sha256 : Text → Text
  pub base64 : Text → Text

-- sort.Strings
insert_sorted : Text → List Text → List Text
insert_sorted s [] = s ∷ []
insert_sorted s (t ∷ ts) = if text_le s t then s ∷ t ∷ ts else t ∷ insert_sorted s ts

sort_strings : List Text → List Text
unfolding insert_sorted
sort_strings [] = []
sort_strings (s ∷ ss) = insert_sorted s (sort_strings ss)

abbrev pub labels : List Member → List Text
labels = map (λ m. m.label)

-- The inner loop of `order`: the first member with the label.
first_labelled : Text → List Member → Option Member
first_labelled l [] = none
first_labelled l (m ∷ ms) = if m.label == l then some m else first_labelled l ms

append_option : Option Member → List Member → List Member
append_option none ms = ms
append_option (some m) ms = m ∷ ms

-- The outer loop of `order`, over the sorted labels.
pick_labelled : List Text → List Member → List Member
unfolding first_labelled append_option
pick_labelled [] grp = []
pick_labelled (l ∷ ls) grp = append_option (first_labelled l grp) (pick_labelled ls grp)

unfoldable pub order : List Member → List Member
unfolding sort_strings pick_labelled
order grp = pick_labelled (sort_strings (labels grp)) grp

-- The encoded sum is written into a buffer as long as the marshalled group.
unfoldable pub calculate : Digest → List Member → Result Text
unfolding order
calculate d grp = do
  byts ← wrap "marshalling group members failed" (d.marshal (order grp))
  buffered (d.base64 (d.sha256 byts)) (length byts)

-- The first loop of `Verify`: from each hash to the members that hold it.
add_state : Text → Text → Assoc (List Text) → Assoc (List Text)
add_state membr val mems = elim (lookup val mems) [
  | none ↦ insert val (membr ∷ []) mems
  | some ms ↦ insert val (ms ++ membr ∷ []) mems
]

pub invert : List (Text × Text) → Assoc (List Text) → Assoc (List Text)
unfolding add_state lookup insert ◌==◌
invert [] mems = mems
invert ((membr, val) ∷ states) mems = invert states (add_state membr val mems)

-- The second loop of `Verify`: the count so far, and the members of the smallest set so far.
pub choose : List (Text × List Text) → ℕ → List Text → ℕ × List Text
choose [] deviated invalid = (deviated, invalid)
choose ((val, membrs) ∷ rest) deviated invalid =
    if ltb (length membrs) deviated
    then choose rest (length membrs) membrs
    else choose rest deviated invalid

-- `order_states` and `order_mems` are the orders in which the two maps are visited. The answer is
-- the list of deviating members, and whether there is none.
unfoldable pub verify :
    (List (Text × Text) → List (Text × Text))
    → (List (Text × List Text) → List (Text × List Text))
    → Assoc Text
    → List Text × Bool
unfolding invert choose
verify order_states order_mems states =
    let (deviated, invalid) =
      choose (order_mems (invert (order_states states) [])) (length states) [] in
    if eqb deviated (length states) then ([], true) else (invalid, false)

-- `grpHashes` is the caller's map: the acceptor's entry is overwritten.
unfoldable pub valid_join :
    Digest
    → (List (Text × Text) → List (Text × Text))
    → (List (Text × List Text) → List (Text × List Text))
    → Text
    → List Member
    → Assoc Text
    → Result (Assoc Text)
unfolding calculate verify
valid_join d order_states order_mems accptr joined_set grp_hashes = do
  joined ← wrap "calculating checksum of initial member set failed" (calculate d joined_set)
  let hashes = insert accptr joined grp_hashes
  if (verify order_states order_mems hashes).1
      then ok hashes
      else fail "at least one inconsistent member set found"
