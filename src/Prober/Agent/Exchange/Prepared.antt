-- ===== src/Prober/Agent/Exchange/Prepared.antt =====
-- prober/agent.go: what `setConnPrereqs` has made when it succeeds.
use didcomm_prober.Prelude.{
  ◌≡◌, refl, sym, ap, ◌∙◌, Text, eq_refl, arith, lookup, insert, lookup-insert, Assoc, some, ok,
  wrap,
}
use didcomm_prober.Prelude.Exec.{continue, continue-done, wrapped-done, ends-eq}
use didcomm_prober.Domain.Messages.{DidDocument}
use didcomm_prober.Crypto.Keys.{Keys, KeyManager, public_key, private_key, generate_keys}
use didcomm_prober.DidComm.Did.{create_did_doc, create_peer_did}
use didcomm_prober.Prober.Agent.{Prober, Env, Fresh}
use didcomm_prober.Prober.Peers.{DidStore, add_did, get_did}
use didcomm_prober.Prober.Agent.Exchange.{set_conn_prereqs, own_services, on_keys, note_did, or_nil}

abbrev pub keyed : Text → Keys → KeyManager → KeyManager
keyed label ks k = record k { key_store = insert label ks k.key_store }

-- the state with a new pair and a new DID for the peer
abbrev pub prepared : Text → Keys → Text → DidDocument → Prober → Prober
prepared label ks did doc p = record p {
  ks = keyed label ks p.ks;
  did_store = add_did label did doc p.did_store;
}

pub lookup-insert_same {ℓ} :
    {V : Type ℓ} (key : Text) (new : V) (m : Assoc V) → lookup key (insert key new m) ≡ some new
lookup-insert_same key new m = ground (arith, lookup-insert key key new m, eq_refl key)

pub public_key-keyed :
    (label : Text) (ks : Keys) (k : KeyManager) → public_key label (keyed label ks k) ≡ ok ks.public
unfolding public_key
public_key-keyed label ks k = rw (public_key, lookup-insert_same label ks k.key_store) refl

pub private_key-keyed :
    (label : Text) (ks : Keys) (k : KeyManager)
    → private_key label (keyed label ks k) ≡ ok ks.private
unfolding private_key
private_key-keyed label ks k = rw (private_key, lookup-insert_same label ks k.key_store) refl

pub get_did-add :
    (label did : Text) (doc : DidDocument) (d : DidStore)
    → get_did label (add_did label did doc d) ≡ ok (did, doc)
unfolding get_did add_did
get_did-add label did doc d =
    rw (get_did, lookup-insert_same label did d.did_map, lookup-insert_same label doc d.did_doc_map)
      refl

module _ (e : Env) (f : Fresh) (ks : Keys) (drawn : f.pair ≡ ok ks) (label : Text)
    (p : Prober) where
  open e use {libs}

  set_conn_prereqs-eq :
      set_conn_prereqs e f label p
      ≡ continue
          (create_did_doc libs.base (own_services f ks.public p))
          (λ doc.
            continue
              (wrap "creating peer did failed" (create_peer_did libs.base e.docs e.sha256 doc))
              (λ did q. (
                ok (ks.public, ks.private),
                record q { did_store = add_did label did doc q.did_store },
              )))
          (record p { ks = keyed label ks p.ks })
  unfolding set_conn_prereqs on_keys own_services note_did or_nil generate_keys
  set_conn_prereqs-eq = simp (drawn, public_key-keyed, private_key-keyed) refl

  pub set_conn_prereqs-done :
      {C : Type 0} (kp : Text × Text)
      → (set_conn_prereqs e f label p).0 ≡ ok kp
      → ((did : Text) (doc : DidDocument)
          → create_did_doc libs.base (own_services f ks.public p) ≡ ok doc
          → kp ≡ (ks.public, ks.private)
          → (set_conn_prereqs e f label p).1 ≡ prepared label ks did doc p
          → get_did label (set_conn_prereqs e f label p).1.did_store ≡ ok (did, doc)
          → C)
      → C
  set_conn_prereqs-done {C} kp h then =
      let q = (set_conn_prereqs e f label p).1 in
      let whole : set_conn_prereqs e f label p ≡ (ok kp, q) = ap (λ x. (x, q)) h in
      continue-done {C = C} _ _ _ q (sym set_conn_prereqs-eq ∙ whole) (λ doc listed named.
        wrapped-done "creating peer did failed" (create_peer_did libs.base e.docs e.sha256 doc) _ _
          q named
          (λ did ready ends.
            let (pair_eq, end) = ends-eq {A = Text × Text} ends in
            let left : q ≡ prepared label ks did doc p = sym end in
            then did doc listed (sym pair_eq) left
              (ap (λ x. get_did label x.did_store) left ∙ get_did-add label did doc p.did_store)))
