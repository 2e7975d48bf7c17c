-- ===== src/Prober/Agent/Exchange/Invited.antt =====
-- prober/agent.go, Invite: what the invitee reads out of the text that the inviter hands on.
use didcomm_prober.Prelude.{
  ◌≡◌, refl, sym, ap, ◌∙◌, Text, str, [], ◌∷◌, ◌++◌, ok, >>=-eq-ok, wrap, wrap-eq-ok, ok-eq,
}
use didcomm_prober.Prelude.Exec.{continue-done, wrapped-done}
use didcomm_prober.Prelude.Buffers.{HasNoNul}
use didcomm_prober.Domain.{Service, servc_did_exchange}
use didcomm_prober.Domain.Messages.{oob_invitation_v1, InvitationMsg, DidDocument}
use didcomm_prober.Crypto.Keys.{generate_inv_keys, inv_public_key}
use didcomm_prober.DidComm.Did.{msg_service, msg_services, create_did_doc}
use didcomm_prober.DidComm.Invitation.{create_inv, parse_inv, parse-create_inv}
use didcomm_prober.Prober.Agent.{Prober, Env, Fresh}
use didcomm_prober.Prober.Agent.Exchange.{invite, on_keys}
use didcomm_prober.Prober.Agent.Exchange.Documents.{IsFaithful, msg_service-eq, written_service}

module _ (e : Env) (public_of : Text → Text) (laws : IsFaithful e.libs public_of) where
  open e use {libs}

  one_service :
      (svc : Service) (doc : DidDocument)
      → create_did_doc libs.base (svc ∷ []) ≡ ok doc
      → doc.services ≡ written_service e public_of laws svc ∷ []
  unfolding create_did_doc msg_services
  one_service svc doc h =
      let (ms, listed, made) = >>=-eq-ok (msg_services libs.base (svc ∷ [])) _ h in
      let (s, one, rest) = >>=-eq-ok (msg_service libs.base svc) _ listed in
      sym (ap (λ (d : DidDocument). d.services) (ok-eq made))
      ∙ sym (ok-eq rest)
      ∙ ap (λ s. s ∷ []) (msg_service-eq e public_of laws svc s one)

  -- the service of an invitation, and the invitation
  abbrev did_exchange_service : Fresh → Text → Prober → Service
  did_exchange_service f key p = record {
    id = f.id;
    typ = servc_did_exchange;
    endpoint = p.inv_endpoint;
    pub_key = key;
  }

  abbrev pub invitation : Fresh → Text → Prober → InvitationMsg
  invitation f key p = record {
    id = f.id_2;
    typ = oob_invitation_v1;
    sender = [];
    label = p.label;
    services = written_service e public_of laws (did_exchange_service f key p) ∷ [];
  }

  -- the last step of `Invite`, once the document is there
  invitation_read :
      (f : Fresh) (p : Prober) (key link : Text) (doc : DidDocument)
      → ((t : Text) → e.url.url_decode (e.url.url_encode t) ≡ ok t)
      → ((t : Text)
          → e.invs.marshal (invitation f key p) ≡ ok t
          → HasNoNul t × (e.invs.unmarshal t ≡ ok (invitation f key p)))
      → doc.services ≡ written_service e public_of laws (did_exchange_service f key p) ∷ []
      → create_inv e.url e.invs e.hostname f.id_2 p.label [] doc ≡ ok link
      → (enc_inv : Text) × (link ≡ e.hostname ++ (str "?oob=" ++ enc_inv))
        × (parse_inv e.url libs.base e.invs enc_inv ≡ ok (invitation f key p, p.inv_endpoint, key))
  unfolding create_inv
  invitation_read f p key link doc url_law invs_law services made =
      let svc = did_exchange_service f key p in
      let (byts, writing, linked) =
        >>=-eq-ok
          (wrap "marshalling invitation failed"
            (e.invs.marshal (record (invitation f key p) { services = doc.services })))
          _ made in
      let written : e.invs.marshal (invitation f key p) ≡ ok byts =
        rw (← services) (wrap-eq-ok "marshalling invitation failed" _ writing) in
      let (clean, read) = invs_law byts written in
      (
        e.url.url_encode byts,
        sym (ok-eq linked),
        parse-create_inv e.url libs.base e.invs (invitation f key p) byts
            (written_service e public_of laws svc) key url_law laws.decodes clean read refl,
      )

  -- Whoever parses the encoded part of the link that `Invite` returns reads the inviter's label, its
  -- invitation endpoint and the public invitation key that the inviter then holds, if the libraries are
  -- faithful, the URL codec decodes what it encodes, and the JSON of the invitation has no zero byte
  -- and reads back.
  pub parse-invite :
      (f : Fresh) (p q : Prober) (key link : Text)
      → ((t : Text) → e.url.url_decode (e.url.url_encode t) ≡ ok t)
      → ((t : Text)
          → e.invs.marshal (invitation f key p) ≡ ok t
          → HasNoNul t × (e.invs.unmarshal t ≡ ok (invitation f key p)))
      → inv_public_key (generate_inv_keys f.pair p.ks).1 ≡ ok key
      → invite e f p ≡ (ok link, q)
      → (enc_inv : Text) × (link ≡ e.hostname ++ (str "?oob=" ++ enc_inv))
        × (inv_public_key q.ks ≡ ok key)
        × (parse_inv e.url libs.base e.invs enc_inv ≡ ok (invitation f key p, p.inv_endpoint, key))
  unfolding invite on_keys create_inv
  parse-invite f p q key link url_law invs_law holds made =
      let k = generate_inv_keys f.pair p.ks in
      let after : Prober = record p { ks = k.1 } in
      wrapped-done _ k.0 _ after q made (λ u keys h1.
        continue-done (inv_public_key k.1) _ after q h1 (λ key_2 has_key h2.
          let same_key : key_2 ≡ key = ok-eq (sym has_key ∙ holds) in
          continue-done (create_did_doc libs.base (did_exchange_service f key_2 p ∷ [])) _ after q
            h2
            (λ doc listed h3.
              let services =
                one_service (did_exchange_service f key_2 p) doc listed
                ∙ ap (λ x. written_service e public_of laws (did_exchange_service f x p) ∷ [])
                    same_key in
              let (enc_inv, linked, read) =
                invitation_read f p key link doc url_law invs_law services
                  (wrap-eq-ok "creating invitation failed" _ (ap (λ z. z.0) h3)) in
              (enc_inv, linked, rw (← ap (λ z. z.1) h3) holds, read))))
