-- ===== src/PubSub/Views/Rejoining.antt =====
-- pubsub/agent.go: what a failed Join leaves behind.
use didcomm_prober.Prelude.{
  ◌≡◌, refl, Text, eq_refl, lookup, insert, lookup-insert, lookup-remove, ◌==◌, false, All, values,
  Bool, true, some, List, [], ◌∷◌, arith, fail, Option-cases, Result-cases, Bool-cases, inl, inr,
}
use didcomm_prober.Prelude.Exec.{wrapping}
use didcomm_prober.Prelude.Keeps.{>>=-reaches}
use didcomm_prober.Domain.{Member, GroupParams, valid_mode}
use didcomm_prober.Domain.GroupMessages.{ResGroupJoin}
use didcomm_prober.PubSub.Validator.{Digest, calculate}
use didcomm_prober.PubSub.Stores.Group
use didcomm_prober.PubSub.Stores.Group.{
  Store, entries, put_member, put_members, update_checksum, add_membrs, delete_membr, drop_member,
  set_params, joined, group_or_new,
}
use didcomm_prober.PubSub.Node.{Node, GroupEnv, Wait, on_gs}
use didcomm_prober.PubSub.Node.Keeping.{IsStable}
use didcomm_prober.PubSub.Views.{Event, leaves, handle, run}
use didcomm_prober.PubSub.Views.Keeping.{handle-Held}
use didcomm_prober.PubSub.Agent.Join.{enter, join}
use didcomm_prober.PubSub.Agent.Join.Keeping.{settle-Keeps}

module _ (topic : Text) where
  abbrev IsJoined : Store → Type 0
  IsJoined s = joined topic s ≡ true

  insert-IsJoined : (t : Text) (g : Group.Group) (s : Store) → IsJoined s → IsJoined (insert t g s)
  unfolding joined
  insert-IsJoined t g s j = ground (arith, lookup-insert t topic g s)

  put_members-IsJoined :
      (t : Text) (ms : List Member) (s : Store) → IsJoined s → IsJoined (put_members t ms s)
  unfolding put_members put_member
  put_members-IsJoined t [] s j = j
  put_members-IsJoined t (m ∷ ms) s j =
      put_members-IsJoined t ms (put_member t m s) (insert-IsJoined t _ s j)

  update_checksum-IsJoined :
      (d : Digest) (order : List Member → List Member) (t : Text) (s : Store)
      → IsJoined s
      → IsJoined (update_checksum d order t s).1
  unfolding update_checksum
  update_checksum-IsJoined d order t s j = elim (Option-cases (lookup t s)) [
    | inl e ↦ rw (e, update_checksum) j
    | inr (g, e) ↦ elim (Result-cases (calculate d (order (values (entries g.members))))) [
      | inl (h, c) ↦ rw (e, c, update_checksum) (insert-IsJoined t (record g { checksum = h }) s j)
      | inr (inl (m, c)) ↦ rw (e, c, update_checksum) j
      | inr (inr c) ↦ rw (e, c, update_checksum) j
    ]
  ]

  delete_membr-IsJoined :
      (d : Digest) (order : List Member → List Member) (t label : Text) (s : Store)
      → IsJoined s
      → IsJoined (delete_membr d order t label s).1
  unfolding delete_membr
  delete_membr-IsJoined d order t label s j = elim (Option-cases (lookup t s)) [
    | inl e ↦ rw (e, delete_membr) j
    | inr (g, e) ↦
        rw (e, delete_membr)
          (update_checksum-IsJoined d order t
            (insert t (record g { members = drop_member label g.members }) s)
            (insert-IsJoined t (record g { members = drop_member label g.members }) s j))
  ]

  set_params-IsJoined :
      (t : Text) (gp : GroupParams) (s : Store) → IsJoined s → IsJoined (set_params t gp s).1
  unfolding set_params
  set_params-IsJoined t gp s j = elim (Bool-cases (valid_mode gp.mode)) [
    | inl good ↦ rw good (insert-IsJoined t _ s j)
    | inr bad ↦ rw bad j
  ]

  set_params_joins :
      (gp : GroupParams) (s : Store)
      → valid_mode gp.mode ≡ true
      → IsJoined (set_params topic gp s).1
  unfolding set_params joined
  set_params_joins gp s good = ground (
    arith,
    good,
    lookup-insert topic topic (record (group_or_new (lookup topic s)) { params = some gp }) s,
    eq_refl topic,
  )

  joined-IsStable :
      (e : GroupEnv)
      → ((w : Wait) (k : Node) → joined topic k.gs ≡ true → joined topic (e.others w k).gs ≡ true)
      → IsStable e IsJoined
  unfolding add_membrs
  joined-IsStable e waits = record {
    adds = λ t ms s j.
        update_checksum-IsJoined e.digest e.range_members t (put_members t ms s)
          (put_members-IsJoined t ms s j);
    deletes = delete_membr-IsJoined e.digest e.range_members;
    sets = set_params-IsJoined;
    waits = waits;
  }

  enter-IsJoined :
      (e : GroupEnv) (acceptor inv : Text) (publishes : Bool) (group : ResGroupJoin) (n : Node)
      → valid_mode group.params.mode ≡ true
      → ((w : Wait) (k : Node) → joined topic k.gs ≡ true → joined topic (e.others w k).gs ≡ true)
      → IsJoined (enter e topic acceptor publishes inv group n).1.gs
  unfolding enter
  enter-IsJoined e acceptor inv publishes group n good waits =
      (>>=-reaches (wrapping "setting consistency failed" (on_gs (set_params topic group.params))) _
        n (record { of_gs = set_params_joins group.params n.gs good })
        (λ u. settle-Keeps e (joined-IsStable e waits) topic acceptor publishes inv group)).of_gs

  delete_topic-IsJoined :
      (t : Text) (s : Store) → (t == topic) ≡ false → IsJoined s → IsJoined (Group.delete_topic t s)
  unfolding Group.delete_topic joined
  delete_topic-IsJoined t s other j = ground (arith, other, lookup-remove t topic s)

  -- What happens does not leave the topic, and its waits drop no group that was joined.
  abbrev pub Stays : GroupEnv × Event → Type 0
  Stays p =
      ((t : Text) → p.1 ≡ leaves t → (t == topic) ≡ false)
      × ((w : Wait) (k : Node) → joined topic k.gs ≡ true → joined topic (p.0.others w k).gs ≡ true)

  run-IsJoined :
      (evs : List (GroupEnv × Event)) (n : Node)
      → All Stays evs
      → IsJoined n.gs
      → IsJoined (run evs n).gs
  unfolding run
  run-IsJoined [] n stays j = j
  run-IsJoined ((e, ev) ∷ evs) n (stay, stays) j =
      run-IsJoined evs (handle e ev n) stays
        (handle-Held e (joined-IsStable e stay.1) ev
          (λ t s left k. delete_topic-IsJoined t s (stay.0 t left) k) n
          (record { of_gs = j })).of_gs

  -- Once the acceptor has answered a Join with parameters of a valid mode, the group counts as
  -- joined whatever the rest of the Join comes to, an inconsistent view included: after any calls and
  -- messages but a Leave of the topic, a Join of it is refused and changes nothing, if no wait, of
  -- the first Join or of what follows, drops the group.
  pub join_again :
      (e e' : GroupEnv) (acceptor acceptor' inv : Text) (publishes publishes' : Bool)
      (group : ResGroupJoin) (n : Node) (evs : List (GroupEnv × Event))
      → valid_mode group.params.mode ≡ true
      → ((w : Wait) (k : Node) → joined topic k.gs ≡ true → joined topic (e.others w k).gs ≡ true)
      → All Stays evs
      → let later = run evs (enter e topic acceptor publishes inv group n).1 in
        join e' topic acceptor' publishes' later ≡ (fail "already connected to group", later)
  unfolding join
  join_again e e' acceptor acceptor' inv publishes publishes' group n evs good waits stays =
      rw
        (run-IsJoined evs (enter e topic acceptor publishes inv group n).1 stays
          (enter-IsJoined e acceptor inv publishes group n good waits))
        refl
