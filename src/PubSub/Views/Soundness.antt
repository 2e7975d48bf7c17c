-- ===== src/PubSub/Views/Soundness.antt =====
-- pubsub/agent.go, pubsub/processor.go and pubsub/stores/group.go: in every run of a node its group
-- store is sound, so that nodes with one view of a group have one checksum for it.
use didcomm_prober.Prelude.{
  ◌≡◌, ◌≢◌, subst, sym, Text, lookup, some, List, [], ◌∷◌, All, IsRange, ok,
}
use didcomm_prober.Domain.{Member}
use didcomm_prober.PubSub.Validator.{Digest, calculate}
use didcomm_prober.PubSub.Stores.Group
use didcomm_prober.PubSub.Stores.Group.{entries, checksum}
use didcomm_prober.PubSub.Stores.Group.Sound.{IsSound}
use didcomm_prober.PubSub.Stores.Group.Methods.{set_params-IsSound, delete_topic-IsSound}
use didcomm_prober.PubSub.Stores.Group.Always.{
  add_membrs-IsSound_always, delete_membr-IsSound_always,
}
use didcomm_prober.PubSub.Stores.Group.Checksums.{checksum_agree}
use didcomm_prober.PubSub.Node.{Node, GroupEnv, Wait}
use didcomm_prober.PubSub.Node.Keeping.{IsStable}
use didcomm_prober.PubSub.Views.{Event, handle, run}
use didcomm_prober.PubSub.Views.Keeping.{handle-Held}

-- An environment with the digest `d`, whose ranges visit every member once, and in which the waits
-- of a call leave a sound store sound.
pub record IsOrderly (d : Digest) (e : GroupEnv) : Type 0 where
  pub same : e.digest ≡ d
  pub ranges : IsRange e.range_members
  pub waits : (w : Wait) (n : Node) → IsSound e.digest n.gs → IsSound e.digest (e.others w n).gs

module _ (d : Digest)
    (calculable : (m : Member) (ms : List Member)
      → (h : Text) × (calculate d (m ∷ ms) ≡ ok h)) where
  stable : (e : GroupEnv) → IsOrderly d e → IsStable e (IsSound e.digest)
  stable e o =
      let sums : (m : Member) (ms : List Member)
          → (h : Text) × (calculate e.digest (m ∷ ms) ≡ ok h) =
        rw o.same calculable in
      record {
        adds = add_membrs-IsSound_always e.digest e.range_members o.ranges sums;
        deletes = delete_membr-IsSound_always e.digest e.range_members o.ranges sums;
        sets = set_params-IsSound e.digest;
        waits = o.waits;
      }

  handle-IsSound :
      (e : GroupEnv) (ev : Event) (n : Node)
      → IsOrderly d e
      → IsSound d n.gs
      → IsSound d (handle e ev n).gs
  handle-IsSound e ev n o s =
      subst (λ c. IsSound c (handle e ev n).gs) o.same
        (handle-Held e (stable e o) ev (λ topic k left. delete_topic-IsSound e.digest topic k) n
          (record { of_gs = subst (λ c. IsSound c n.gs) (sym o.same) s })).of_gs

  -- If the checksum of every set with a member can be calculated, and in orderly environments, any
  -- run of calls and messages takes a node with a sound group store to one with a sound group store,
  -- whatever fails on the way, a checksum of no members included. In a sound store the members stand
  -- under their labels, and a group with a member holds the checksum of its members.
  pub run-IsSound :
      (evs : List (GroupEnv × Event)) (n : Node)
      → All (λ p. IsOrderly d p.0) evs
      → IsSound d n.gs
      → IsSound d (run evs n).gs
  unfolding run
  run-IsSound [] n o s = s
  run-IsSound ((e, ev) ∷ evs) n (o, os) s =
      run-IsSound evs (handle e ev n) os (handle-IsSound e ev n o s)

  empty-IsSound : IsSound d []
  unfolding lookup
  empty-IsSound t g e = cc

  -- If the checksum of every set with a member can be calculated, then two nodes that began with no
  -- groups, and that hold the same members of a group, at least one, after any runs in orderly
  -- environments, hold the same checksum for the group.
  pub views_agree :
      (evs evs' : List (GroupEnv × Event)) (n n' : Node) (topic : Text) (g h : Group.Group)
      → All (λ p. IsOrderly d p.0) evs
      → All (λ p. IsOrderly d p.0) evs'
      → n.gs ≡ []
      → n'.gs ≡ []
      → lookup topic (run evs n).gs ≡ some g
      → lookup topic (run evs' n').gs ≡ some h
      → entries g.members ≢ []
      → entries h.members ≢ []
      → ((l : Text) → lookup l (entries g.members) ≡ lookup l (entries h.members))
      → checksum topic (run evs n).gs ≡ checksum topic (run evs' n').gs
  views_agree evs evs' n n' topic g h os os' none_yet none_yet' at_n at_n' some_g some_h same =
      checksum_agree d (run evs n).gs (run evs' n').gs topic g h
        (run-IsSound evs n os (rw none_yet empty-IsSound))
        (run-IsSound evs' n' os' (rw none_yet' empty-IsSound)) at_n at_n' some_g some_h same
