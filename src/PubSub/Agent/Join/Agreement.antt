-- ===== src/PubSub/Agent/Join/Agreement.antt =====
-- pubsub/agent.go, Join with the parameter JoinConsistent: what the members that were asked have answered
-- when the join goes on.
use didcomm_prober.Prelude.{
  ◌<◌, ◌≡◌, ◌≢◌, refl, ap, subst, ◌∙◌, Text, ◌==◌, eq_iff, eq_refl, Assoc, lookup, insert,
  lookup-insert, IsMap, IsRange, insert-IsMap, Bool, true, false, some, List, [], ◌∷◌, ◌++◌, length,
  ltb, arith, Result, ok, err, panic, is_ok, if◌then◌else◌, Bool-cases, inl, inr,
}
use didcomm_prober.Prelude.Exec.{continue-done, wrapped-done, if-done, ends-eq}
use didcomm_prober.Domain.{Member}
use didcomm_prober.Domain.GroupMessages.{ResSubscribe, ResGroupJoin}
use didcomm_prober.PubSub.Validator.{valid_join, calculate}
use didcomm_prober.PubSub.Validator.Joins.{Agree, valid_join_iff}
use didcomm_prober.PubSub.Node.{Node, GroupEnv}
use didcomm_prober.PubSub.Agent.{init_clock}
use didcomm_prober.PubSub.Agent.Members.{connect_member}
use didcomm_prober.PubSub.Agent.Join.{
  Progress, response_of, collect, connect_all, check_view, judged, settle,
}

module _ (e : GroupEnv) (topic : Text) (publishes : Bool) (responses : Assoc ResSubscribe) where
  -- the checksum of a label's response is among the sums
  Present : Text → Assoc Text → Type 0
  Present l sums = lookup l sums ≡ some ((response_of l responses).checksum)

  insert-Present :
      (l k : Text) (sums : Assoc Text)
      → Present l sums
      → Present l (insert k ((response_of k responses).checksum) sums)
  unfolding Present
  insert-Present l k sums h = elim (Bool-cases (k == l)) [
    | inl hit ↦
        let same : k ≡ l = (eq_iff k l).0 hit in
        lookup-insert k l ((response_of k responses).checksum) sums ∙ rw hit (rw same refl)
    | inr miss ↦ lookup-insert k l ((response_of k responses).checksum) sums ∙ rw miss h
  ]

  -- one round of the second loop over the members
  connect_all-done :
      {C : Type 0} (m : Member) (ms : List Member) (sums out : Assoc Text) (n q : Node)
      → connect_all e topic publishes (m ∷ ms) responses sums n ≡ (ok out, q)
      → ((n_2 : Node)
          → m.active ≡ true
          → connect_all e topic publishes ms responses
              (insert m.label ((response_of m.label responses).checksum) sums)
              n_2
            ≡ (ok out, q)
          → C)
      → (m.active ≡ false → connect_all e topic publishes ms responses sums n ≡ (ok out, q) → C)
      → C
  unfolding connect_all
  connect_all-done m ms sums out n q h when_active when_idle =
      if-done m.active _ _ n q h
        (λ active went.
          wrapped-done _ (connect_member e topic publishes m (response_of m.label responses) n).0 _
            _ q went (λ u connected rest. when_active _ active rest))
        when_idle

  connect_all-keeps :
      (P : Assoc Text → Type 0)
      → ((k : Text) (s : Assoc Text) → P s → P (insert k ((response_of k responses).checksum) s))
      → (ms : List Member) (sums out : Assoc Text) (n q : Node)
      → connect_all e topic publishes ms responses sums n ≡ (ok out, q)
      → P sums
      → P out
  unfolding connect_all
  connect_all-keeps P step [] sums out n q h k = subst P (ends-eq h).0 k
  connect_all-keeps P step (m ∷ ms) sums out n q h k =
      connect_all-done m ms sums out n q h
        (λ n_2 active rest. connect_all-keeps P step ms _ out n_2 q rest (step m.label sums k))
        (λ idle rest. connect_all-keeps P step ms sums out n q rest k)

  -- The checksum of an active member is among the sums at the end.
  connect_all-Present :
      (m : Member) (before after : List Member) (sums out : Assoc Text) (n q : Node)
      → m.active ≡ true
      → connect_all e topic publishes (before ++ m ∷ after) responses sums n ≡ (ok out, q)
      → Present m.label out
  unfolding Present
  connect_all-Present m [] after sums out n q active h =
      connect_all-done m after sums out n q h
        (λ n_2 _ rest.
          connect_all-keeps (Present m.label) (λ k s. insert-Present m.label k s) after _ out n_2 q
            rest
            (ground (
              arith,
              lookup-insert m.label m.label ((response_of m.label responses).checksum) sums,
              eq_refl m.label,
            )))
        (λ idle rest. absurd (ground (arith, active, idle)))
  connect_all-Present m (b ∷ before) after sums out n q active h =
      connect_all-done b (before ++ m ∷ after) sums out n q h
        (λ n_2 _ rest. connect_all-Present m before after _ out n_2 q active rest)
        (λ idle rest. connect_all-Present m before after sums out n q active rest)

judged-ok : (e : GroupEnv) (r : Result (Assoc Text)) → judged e true r ≡ ok tt → is_ok r ≡ true
unfolding judged
judged-ok e (ok hashes) h = refl
judged-ok e (err why) h = cc
judged-ok e panic h = cc

-- A view that passes the check where the parameters ask for it.
check_view-Agree :
    (e : GroupEnv)
    → IsRange e.range_texts
    → IsRange e.range_sets
    → (acceptor c : Text) (group : ResGroupJoin) (sums : Assoc Text) → IsMap sums
    → group.params.join_consistent ≡ true
    → 1 < length group.members
    → calculate e.digest group.members ≡ ok c
    → check_view e acceptor group sums ≡ ok tt
    → Agree acceptor c sums
unfolding check_view judged
check_view-Agree e texts sets acceptor c group sums distinct strict many sum passed =
    let lt : ltb 1 (length group.members) ≡ true = ground arith in
    let join = valid_join e.digest e.range_texts e.range_sets acceptor group.members sums in
    let strictly =
      subst (λ b. (if ltb 1 (length group.members) then judged e b join else ok tt) ≡ ok tt) strict
        passed in
    let judged_ok : judged e true join ≡ ok tt = rw lt at strictly in
    (valid_join_iff e.digest e.range_texts e.range_sets texts sets acceptor c group.members sums
        distinct sum).0
      (judged-ok e (valid_join e.digest e.range_texts e.range_sets acceptor group.members sums)
        judged_ok)

-- What the settled join rests on.
settle-done :
    {C : Type 0} (e : GroupEnv) (topic acceptor : Text) (publishes : Bool) (inv : Text)
    (group : ResGroupJoin) (progress : Progress) (n q : Node)
    → settle e topic acceptor publishes inv group n ≡ (ok progress, q)
    → ((responses : Assoc ResSubscribe) (sums : Assoc Text) (n_1 n_2 : Node)
        → (collect e topic publishes group.members []
            (init_clock e topic group.params.order_enabled n).1).0
          ≡ ok responses
        → connect_all e topic publishes group.members responses [] n_1 ≡ (ok sums, n_2)
        → check_view e acceptor group sums ≡ ok tt
        → C)
    → C
unfolding settle
settle-done e topic acceptor publishes inv group progress n q h next =
    let clock = init_clock e topic group.params.order_enabled n in
    continue-done clock.0 _ clock.1 q h (λ u started h1.
      let asked = collect e topic publishes group.members [] clock.1 in
      continue-done asked.0 _ asked.1 q h1 (λ responses collected h2.
        let met = connect_all e topic publishes group.members responses [] asked.1 in
        continue-done met.0 _ met.1 q h2 (λ sums connected h3.
          continue-done (check_view e acceptor group sums) _ met.1 q h3 (λ u_2 checked h4.
            next responses sums asked.1 met.1 collected (ap (λ r. (r, met.1)) connected) checked))))

-- A join that goes on, in a group of more than one member whose parameters ask for a consistent view,
-- has heard from every active member but the acceptor the checksum `c` that the joining member
-- calculates on the members that it was told: the answers that the members were asked for hold `c` for
-- each of them, in whatever order the maps of the checksums are visited. An answer that is missing
-- counts as an empty checksum.
pub settle-agreed :
    (e : GroupEnv) (topic acceptor : Text) (publishes : Bool) (inv c : Text) (group : ResGroupJoin)
    (progress : Progress) (n : Node) (m : Member) (before after : List Member)
    → IsRange e.range_texts
    → IsRange e.range_sets
    → (settle e topic acceptor publishes inv group n).0 ≡ ok progress
    → group.params.join_consistent ≡ true
    → 1 < length group.members
    → calculate e.digest group.members ≡ ok c
    → group.members ≡ before ++ m ∷ after
    → m.active ≡ true
    → m.label ≢ acceptor
    → (responses : Assoc ResSubscribe) × ((collect e topic publishes group.members []
          (init_clock e topic group.params.order_enabled n).1).0
        ≡ ok responses)
      × ((response_of m.label responses).checksum ≡ c)
unfolding Present
settle-agreed e topic acceptor publishes inv c group progress n m before after texts sets ended
      strict many sum split active other =
    let q = (settle e topic acceptor publishes inv group n).1 in
    settle-done e topic acceptor publishes inv group progress n q (ap (λ r. (r, q)) ended)
      (λ responses sums n_1 n_2 collected connected checked.
        let distinct =
          connect_all-keeps e topic publishes responses IsMap (λ k s. insert-IsMap k _ s)
            group.members [] sums n_1 n_2 connected tt in
        let agree =
          check_view-Agree e texts sets acceptor c group sums distinct strict many sum checked in
        let present =
          connect_all-Present e topic publishes responses m before after [] sums n_1 n_2 active (
            subst (λ ms. connect_all e topic publishes ms responses [] n_1 ≡ (ok sums, n_2)) split
              connected) in
        (responses, collected, agree m.label _ present other))
