-- ===== src/DidComm/Invitation.antt =====
-- didcomm/invitation/handler.go: out-of-band invitations. `url_encode` and `url_decode` are those of
-- base64.URLEncoding; the random id is an argument.
use didcomm_prober.Prelude.{
  ◌-◌, ◌≡◌, Text, str, List, [], ◌∷◌, ◌++◌, length, replicate, Result, ok, fail, wrap, ◌>>=◌,
}
use didcomm_prober.Prelude.Buffers.{trim_nul, trim_nul_padded, HasNoNul}
use didcomm_prober.Domain.Messages.{
  MsgService, DidDocument, InvitationMsg, BaseCodec, Json, oob_invitation_v1,
}

pub record UrlCodec : Type 0 where
  pub url_encode : Text → Text
  pub url_decode : Text → Result Text

unfoldable pub create_inv :
    UrlCodec → Json InvitationMsg → Text → Text → Text → Text → DidDocument → Result Text
create_inv url invs inv_endpoint id label did did_doc = do
  byts ← wrap "marshalling invitation failed" (
      invs.marshal (record {
        id = id;
        typ = oob_invitation_v1;
        sender = did;
        label = label;
        services = did_doc.services;
      }))
  ok (inv_endpoint ++ (str "?oob=" ++ url.url_encode byts))

-- the loop of `ParseInv` over the services: the first one that has a recipient key
first_key : BaseCodec → InvitationMsg → List MsgService → Result (InvitationMsg × Text × Text)
first_key base inv [] = fail "no recipient key found for a service"
first_key base inv (s ∷ ss) = elim s.recipient_keys [
  | [] ↦ first_key base inv ss
  | k ∷ ks ↦ do
    pub_key ← wrap "decoding recipient key failed" (base.decode64 k)
    ok (inv, s.service_endpoint, pub_key)
]

some_service : List MsgService → Result (Unit {0})
some_service [] = fail "no service found in invitation"
some_service (s ∷ ss) = ok tt

unfoldable pub parse_inv :
    UrlCodec → BaseCodec → Json InvitationMsg → Text → Result (InvitationMsg × Text × Text)
unfolding first_key some_service
parse_inv url base invs enc_inv = do
  decoded ← wrap "base64 url decode failed" (url.url_decode enc_inv)
  let byt_inv = trim_nul (decoded ++ replicate (length enc_inv - length decoded) 0)
  inv ← wrap "received response is not a valid invitation" (invs.unmarshal byt_inv)
  _ ← some_service inv.services
  first_key base inv inv.services

-- What an invitee reads out of an invitation is what the inviter put in: the invitation itself, and
-- the endpoint and the key of its one service, if the marshalled invitation has no zero byte and reads
-- back as the invitation, and both base 64 codecs decode what they encode.
pub parse-create_inv :
    (url : UrlCodec) (base : BaseCodec) (invs : Json InvitationMsg) (inv : InvitationMsg)
    (byts : Text) (s : MsgService) (key : Text)
    → ((t : Text) → url.url_decode (url.url_encode t) ≡ ok t)
    → ((t : Text) → base.decode64 (base.encode64 t) ≡ ok t)
    → HasNoNul byts
    → invs.unmarshal byts ≡ ok inv
    → inv.services ≡ (record s { recipient_keys = base.encode64 key ∷ [] }) ∷ []
    → parse_inv url base invs (url.url_encode byts) ≡ ok (inv, s.service_endpoint, key)
unfolding parse_inv first_key some_service
parse-create_inv url base invs inv byts s key url_law base_law clean read one = rw (
  url_law byts,
  trim_nul_padded byts (length (url.url_encode byts) - length byts) clean,
  read,
  one,
  base_law key,
)
