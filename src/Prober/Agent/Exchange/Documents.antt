-- ===== src/Prober/Agent/Exchange/Documents.antt =====
-- prober/agent.go, getPeerInfo, and didcomm/did/handler.go: the services that a receiver reads out of a
-- DID document are those it was made of.
use didcomm_prober.Prelude.{
  ◌≡◌, refl, subst, inl, inr, Text, List, [], ◌∷◌, arith, length, ok, >>=-eq-ok, ok-eq, sym, ltb,
  Bool-cases,
}
use didcomm_prober.Prelude.Buffers.{buffered, buffered_lem, buffered_short, HasNoNul}
use didcomm_prober.Domain.{Service}
use didcomm_prober.Domain.Messages.{AuthCryptMsg, MsgService, DidDocument, ReadsBack}
use didcomm_prober.Crypto.Packer.{Random, Libraries, pack, new_payload}
use didcomm_prober.Crypto.Packer.RoundTrip.{IsSodium, Decodes, unpack-pack}
use didcomm_prober.DidComm.Did.{msg_service, msg_services, create_did_doc}
use didcomm_prober.Prober.Agent.{Env, get_peer_info, doc_services, first_decoded, some_services}

-- What the code relies on in the libraries, for key pairs whose public key is `public_of` the private
-- one: libsodium opens what it seals, base 64 and base 58 decode what they encode, base 64 writes no
-- zero byte, and a protected payload reads back from its JSON.
pub record IsFaithful (libs : Libraries) (public_of : Text → Text) : Type 0 where
  pub sodium : IsSodium libs.sodium public_of
  pub decodes : Decodes libs.base
  pub decodes_58 : (t : Text) → libs.base.decode58 (libs.base.encode58 t) ≡ t
  pub clean : (t : Text) → HasNoNul (libs.base.encode64 t)
  pub payloads :
      (cek key iv rec_key : Text) → ReadsBack libs.payloads (new_payload libs cek key iv rec_key)

buffered-ok : (t u : Text) → HasNoNul t → buffered t 64 ≡ ok u → t ≡ u
buffered-ok t u clean h = elim (Bool-cases (ltb 64 (length t))) [
  | inl long ↦ absurd (ground (arith, buffered_short t 64 (ground arith), h))
  | inr fits ↦ ground (arith, buffered_lem t 64 clean (ground arith), h)
]

module _ (e : Env) (public_of : Text → Text) (laws : IsFaithful e.libs public_of) where
  open e use {libs}

  -- a service of a document
  abbrev pub written_service : Service → MsgService
  written_service svc = record {
    id = svc.id;
    typ = svc.typ;
    recipient_keys = libs.base.encode64 svc.pub_key ∷ [];
    routing_keys = [];
    service_endpoint = svc.endpoint;
    accept = [];
  }

  pub msg_service-eq :
      (svc : Service) (s : MsgService) → msg_service libs.base svc ≡ ok s → s ≡ written_service svc
  unfolding msg_service
  msg_service-eq svc s h =
      let (key, stored, made) = >>=-eq-ok (buffered (libs.base.encode64 svc.pub_key) 64) _ h in
      rw (buffered-ok (libs.base.encode64 svc.pub_key) key (laws.clean svc.pub_key) stored)
        (sym (ok-eq made))

  first_decoded-msg_service :
      (svc : Service) (s : MsgService)
      → msg_service libs.base svc ≡ ok s
      → first_decoded libs.base s s.recipient_keys ≡ svc ∷ []
  unfolding first_decoded
  first_decoded-msg_service svc s h =
      subst (λ (m : MsgService). first_decoded libs.base m m.recipient_keys ≡ svc ∷ [])
        (sym (msg_service-eq svc s h)) (rw (first_decoded, laws.decodes svc.pub_key) refl)

  doc_services-msg_services :
      (svcs : List Service) (ms : List MsgService)
      → msg_services libs.base svcs ≡ ok ms
      → doc_services libs.base ms ≡ svcs
  unfolding doc_services msg_services
  doc_services-msg_services [] ms h = let e : [] ≡ ms = cc in rw (← e) refl
  doc_services-msg_services (svc ∷ svcs) ms h =
      let (s, one, h1) = >>=-eq-ok (msg_service libs.base svc) _ h in
      let (rest, more, h2) = >>=-eq-ok (msg_services libs.base svcs) _ h1 in
      let e : s ∷ rest ≡ ms = cc in
      rw (← e, first_decoded-msg_service svc s one, doc_services-msg_services svcs rest more)

  pub doc_services-create :
      (svcs : List Service) (doc : DidDocument)
      → create_did_doc libs.base svcs ≡ ok doc
      → doc_services libs.base doc.services ≡ svcs
  unfolding create_did_doc
  doc_services-create svcs doc h =
      let (ms, made, h1) = >>=-eq-ok (msg_services libs.base svcs) _ h in
      let e : ◌≡◌ {A = DidDocument} (record { context = []; id = []; services = ms }) doc = cc in
      rw (← e) (doc_services-msg_services svcs ms made)

  some_services-ok :
      (ms : List MsgService) (s : Service) (ss : List Service)
      → doc_services libs.base ms ≡ s ∷ ss
      → some_services ms ≡ ok tt
  unfolding some_services doc_services
  some_services-ok [] s ss h = cc
  some_services-ok (m ∷ ms) s ss h = refl

  -- A document that the holder of `a` has packed for the holder of `b`.
  pub get_peer_info-pack :
      (r : Random) (a b byts content : Text) (doc : DidDocument) (msg : AuthCryptMsg) (s : Service)
      (ss : List Service)
      → pack libs r byts (public_of b) (public_of a) a ≡ ok msg
      → libs.msgs.unmarshal content ≡ ok msg
      → e.docs.unmarshal byts ≡ ok doc
      → doc_services libs.base doc.services ≡ s ∷ ss
      → get_peer_info e content (public_of b) b ≡ ok (s ∷ ss)
  unfolding get_peer_info
  get_peer_info-pack r a b byts content doc msg s ss packed read decoded listed =
      let opened =
        unpack-pack libs public_of laws.sodium laws.decodes laws.payloads r byts a b content msg
          packed read in
      rw (opened, decoded, some_services-ok doc.services s ss listed, listed)
