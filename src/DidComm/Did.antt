-- ===== src/DidComm/Did.antt =====
-- didcomm/did/handler.go: DID documents and peer DIDs. SHA-256 is an argument.
use didcomm_prober.Prelude.{
  ℕ, zero, suc, ◌≡◌, refl, ap, ◌∙◌, ◌↔◌, Text, str, ◌==◌, eq_iff, eq_refl, List, [], ◌∷◌, ◌++◌,
  arith, length, take, ltb, Result, ok, fail, wrap, ◌>>=◌, >>=-eq-ok, if◌then◌else◌,
}
use didcomm_prober.Prelude.Buffers.{buffered}
use didcomm_prober.Domain.{Service}
use didcomm_prober.Domain.Messages.{MsgService, DidDocument, BaseCodec, Json}

-- one round of the loop of `CreateDIDDoc`: the key is encoded into a buffer of 64 bytes
unfoldable pub msg_service : BaseCodec → Service → Result MsgService
msg_service base svc = do
  encoded_key ← buffered (base.encode64 svc.pub_key) 64
  ok (record {
    id = svc.id;
    typ = svc.typ;
    recipient_keys = encoded_key ∷ [];
    routing_keys = [];
    service_endpoint = svc.endpoint;
    accept = [];
  })

unfoldable pub msg_services : BaseCodec → List Service → Result (List MsgService)
unfolding msg_service
msg_services base [] = ok []
msg_services base (svc ∷ svcs) = do
  s ← msg_service base svc
  rest ← msg_services base svcs
  ok (s ∷ rest)

unfoldable pub create_did_doc : BaseCodec → List Service → Result DidDocument
unfolding msg_services
create_did_doc base svcs = do
  services ← msg_services base svcs
  ok (record { context = []; id = []; services = services })

abbrev pub peer_did_prefix : Text
peer_did_prefix = str "did:peer:1z"

unfoldable pub create_peer_did :
    BaseCodec → Json DidDocument → (Text → Text) → DidDocument → Result Text
create_peer_did base docs sha256 doc = do
  byts ← wrap "marshalling did doc failed" (docs.marshal doc)
  ok (peer_did_prefix ++ base.encode58 (sha256 byts))

unfoldable pub validate_peer_did : Text → Result (Unit {0})
validate_peer_did did =
    if ltb (length did) 11
    then fail "invalid did in invitation"
    else if take 11 did == peer_did_prefix
    then ok tt
    else fail "did type is not peer"

take_rest : (n : ℕ) (t : Text) → (rest : Text) × (t ≡ take n t ++ rest)
take_rest zero t = (t, refl)
take_rest (suc n) [] = ([], refl)
take_rest (suc n) (b ∷ t) = let (rest, e) = take_rest n t in (rest, ap (◌∷◌ b) e)

-- `ValidatePeerDID` accepts exactly the texts that begin with "did:peer:1z".
pub validate_peer_did_iff :
    (did : Text)
    → (validate_peer_did did ≡ ok tt) ↔ ((rest : Text) × (did ≡ peer_did_prefix ++ rest))
unfolding validate_peer_did
validate_peer_did_iff did = (
  λ h.
      let (rest, e) = take_rest 11 did in
      (
        rest,
        e
            ∙ ap (λ x. x ++ rest) {y = peer_did_prefix}
                (ground (arith, eq_iff (take 11 did) peer_did_prefix)),
      ),
  λ (rest, e). rw e (rw (eq_refl peer_did_prefix) (ground arith)),
)

-- A DID that `CreatePeerDID` makes is accepted.
pub validate-create :
    (base : BaseCodec) (docs : Json DidDocument) (sha256 : Text → Text) (doc : DidDocument)
    (did : Text)
    → create_peer_did base docs sha256 doc ≡ ok did
    → validate_peer_did did ≡ ok tt
unfolding create_peer_did
validate-create base docs sha256 doc did h =
    let (byts, _, e) = >>=-eq-ok (wrap _ (docs.marshal doc)) _ h in
    (validate_peer_did_iff did).1 (base.encode58 (sha256 byts), ground (arith, e))
