-- ===== src/DidComm/Discovery.antt =====
-- didcomm/discovery/handler.go: which features an agent discloses to a query.
pub mod Disclosed
use didcomm_prober.Prelude.{
  Text, str, ◌==◌, Bool, true, false, ◌&&◌, ◌||◌, Option, none, some, List, [], ◌∷◌, eqb, Result,
  ok, wrap, ◌>>=◌, if◌then◌else◌,
}
use didcomm_prober.Domain.{Feature}
use didcomm_prober.Domain.Messages.{Json, discover_feat_query, discover_feat_disclose}

abbrev pub features : List Feature
features =
    record {
      id = str "https://didcomm.org/out-of-band/1.0";
      roles = str "sender" ∷ str "receiver" ∷ [];
    }
    ∷ record {
      id = str "https://didcomm.org/didexchange/1.0";
      roles = str "inviter" ∷ str "invitee" ∷ [];
    }
    ∷ record {
      id = str "https://didcomm.org/pub-sub/1.0";
      roles = str "publisher" ∷ str "subscriber" ∷ [];
    }
    ∷ []

pub record DiscloseFeature : Type 0 where
  pub typ : Text
  pub th_id : Text
  pub disclosed : List Feature

pub record QueryFeature : Type 0 where
  pub typ : Text
  pub id : Text
  pub query_text : Text
  pub comment : Text

-- strings.HasPrefix
unfoldable pub has_prefix : Text → Text → Bool
has_prefix s [] = true
has_prefix [] (c ∷ p) = false
has_prefix (b ∷ s) (c ∷ p) = eqb b c && has_prefix s p

-- strings.Contains
unfoldable pub contains : Text → Text → Bool
unfolding has_prefix
contains [] p = has_prefix [] p
contains (b ∷ s) p = has_prefix (b ∷ s) p || contains s p

-- query[:len(query)-1] and query[len(query)-1] of a text that is not empty
unfoldable pub split_last : Text → Option (Text × Text)
split_last [] = none
split_last (b ∷ []) = some ([], b ∷ [])
split_last (b ∷ c ∷ s) = elim (split_last (c ∷ s)) [
  | none ↦ none
  | some (front, end) ↦ some (b ∷ front, end)
]

unfoldable pub with_prefix : Text → List Feature → List Feature
with_prefix p [] = []
with_prefix p (f ∷ fs) = if has_prefix f.id p then f ∷ with_prefix p fs else with_prefix p fs

unfoldable pub with_id : Text → List Feature → List Feature
with_id q [] = []
with_id q (f ∷ fs) = if f.id == q then f ∷ [] else with_id q fs

unfoldable pub matching : Text → List Feature → Option (Text × Text) → List Feature
matching query fs none = []
matching query fs (some (front, end)) =
    if end == str "*" then with_prefix front fs else with_id query fs

unfoldable pub process_query : List Feature → Text → List Feature
unfolding contains split_last with_prefix with_id matching
process_query fs query =
    if query == []
    then fs
    else if query == str "*"
    then fs
    else if contains query (str "https://didcomm.org/")
    then matching query fs (split_last query)
    else []

unfoldable pub disclose : List Feature → Text → Text → DiscloseFeature
unfolding process_query
disclose fs id query = record {
  typ = discover_feat_disclose;
  th_id = id;
  disclosed = process_query fs query;
}

-- One round of `listen`: the reply to a query, or none where an error is only logged.
unfoldable pub answer : Json QueryFeature → Json DiscloseFeature → List Feature → Text → Option Text
unfolding disclose
answer queries disclosures fs content = elim (queries.unmarshal content) [
  | ok qm ↦ elim (disclosures.marshal (disclose fs qm.id qm.query_text)) [
    | ok byts ↦ some byts
    | _ ↦ none
  ]
  | _ ↦ none
]

-- `Query`, with the random id and the transport as arguments
unfoldable pub query :
    Json QueryFeature
    → Json DiscloseFeature
    → (Text → Text → Result Text)
    → Text
    → Text
    → Text
    → Text
    → Result (List Feature)
query queries disclosures send id endpoint query_text comment = do
  byts ← wrap "marshalling query feature message failed" (
      queries.marshal
        (record { typ = discover_feat_query; id = id; query_text = query_text; comment = comment }))
  res ← wrap "sending query message failed" (send byts endpoint)
  dm ← wrap "unmarshalling disclose response failed" (disclosures.unmarshal res)
  ok dm.disclosed
