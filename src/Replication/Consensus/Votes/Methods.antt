-- ===== src/Replication/Consensus/Votes/Methods.antt =====
-- Each method of a running controller keeps the invariant, and remembers the vote that it hands out.
use bifrox.Prelude.{
  ℕ, suc, ◌^◌, ◌≤◌, ◌<◌, ◌≡◌, refl, ◌∙◌, ◌⊎◌, inl, inr, true, false, Option, none, some, List,
  arith, ltb, if◌then◌else◌, Bool-cases, ltb→lt, not_ltb→le,
}
use bifrox.Replication.Durable.{ReplaceOutcome, FileContent}
use bifrox.Replication.Consensus.{
  Controller, Outcome, follower, persist_or_demote, force_candidate_state, handle_leader_heartbeat,
  check_election_timeout, campaign, next_term,
}
use bifrox.Replication.Consensus.HardState.{VoteIsCurrent}
use bifrox.Replication.Consensus.Votes.{settle}
use bifrox.Replication.Consensus.Votes.Invariant.{
  Inv, IsSynced, IsReady, Grows, file_term, file_vote, persist_or_demote-Inv,
  persist_or_demote-true, new_term, new_vote,
}

-- The file of an outcome holds the vote for `c` in term `t`.
abbrev pub Holds : FileContent → ℕ → ℕ → Type 0
Holds file t c = (file_term file ≡ t) × (file_vote file ≡ some (t, c))

follow_current :
    (t term : ℕ) (v : Option (ℕ × ℕ))
    → t ≤ term
    → VoteIsCurrent t v
    → VoteIsCurrent term (if ltb t term then none else v)
follow_current t term none h cur = elim (Bool-cases (ltb t term)) [
  | inl newer ↦ rw newer tt
  | inr same ↦ rw same tt
]
follow_current t term (some (a, id)) h cur = elim (Bool-cases (ltb t term)) [
  | inl newer ↦ rw newer tt
  | inr same ↦ rw same (omega (arith, cur, not_ltb→le t term same))
]

follow-Grows :
    (t term : ℕ) (v : Option (ℕ × ℕ)) → t ≤ term → Grows t v term (if ltb t term then none else v)
follow-Grows t term v h = elim (Bool-cases (ltb t term)) [
  | inl newer ↦ inl (ltb→lt t term newer)
  | inr same ↦ rw same (inr (omega (arith, not_ltb→le t term same), inr refl))
]

module _ (b : ℕ) (fits : suc b < 2 ^ 64) (c : Controller) (file : FileContent)
    (granted : List (ℕ × ℕ)) (inv : Inv b (record { node = some c; file = file }) granted) where
  pub same_controller :
      (c' : Controller)
      → IsSynced b file c'
      → Inv (suc b) (record { node = some c'; file = file }) granted
  same_controller c' s = record {
    synced = record {
      path = s.path;
      id_fits = s.id_fits;
      not_behind = s.not_behind;
      bound = omega (arith, s.bound);
      current = s.current;
      same_term = s.same_term;
      same_vote = s.same_vote;
    };
    file_bound = omega (arith, inv.file_bound);
    file_current = inv.file_current;
    remembered = inv.remembered;
  }

  pub unchanged : Inv (suc b) (record { node = some c; file = file }) granted
  unchanged = same_controller c inv.synced

  pub write_Inv :
      (c' : Controller) (o : ReplaceOutcome)
      → IsReady (suc b) file c'
      → Inv (suc b) (settle (persist_or_demote o c' file)) granted
  write_Inv c' o r =
      persist_or_demote-Inv (suc b) fits c' file r o granted (omega (arith, inv.file_bound))
        inv.file_current inv.remembered

  -- A successful write of a vote for `id` in `t` leaves it in the file.
  pub write_Holds :
      (c' : Controller) (o : ReplaceOutcome) (t id : ℕ)
      → IsReady (suc b) file c'
      → c'.current_term ≡ t
      → c'.voted_for ≡ some (t, id)
      → (persist_or_demote o c' file).0 ≡ true
      → Holds (persist_or_demote o c' file).2 t id × ((persist_or_demote o c' file).1 ≡ c')
  write_Holds c' o t id r e v h =
      rw (persist_or_demote-true c' file r.path o h)
        ((new_term (suc b) fits c' file r ∙ e, new_vote (suc b) fits c' file r ∙ v), refl)

  next_term_lem : next_term c.current_term ≡ suc c.current_term
  next_term_lem = omega (arith, inv.synced.bound)

  pub campaign-IsReady :
      (now : ℕ)
      → c.persistence_failed ≡ false
      → IsReady (suc b) file (record (campaign c) { last_heartbeat = now })
  campaign-IsReady now f = record {
    path = inv.synced.path;
    id_fits = inv.synced.id_fits;
    not_behind = omega (arith, next_term_lem, inv.synced.not_behind);
    bound = omega (arith, next_term_lem, inv.synced.bound);
    current = (refl, inv.synced.id_fits);
    grows = inl (omega (arith, next_term_lem, inv.synced.not_behind));
  }

  pub force_cases :
      (o : ReplaceOutcome)
      → (force_candidate_state o c file ≡ (false, c, file))
        ⊎ ((c.persistence_failed ≡ false)
            × (force_candidate_state o c file ≡ persist_or_demote o (campaign c) file))
  unfolding force_candidate_state
  force_cases o = ground arith

  pub force-Inv :
      (o : ReplaceOutcome) → Inv (suc b) (settle (force_candidate_state o c file)) granted
  force-Inv o = elim (force_cases o) [
    | inl e ↦ rw e unchanged
    | inr (f, e) ↦ rw e (write_Inv (campaign c) o (campaign-IsReady c.last_heartbeat f))
  ]

  -- A campaign's vote for the node itself is in the file, if the campaign was written.
  campaign_Holds :
      (c' : Controller) (o : ReplaceOutcome) (r : Outcome)
      → IsReady (suc b) file c'
      → c'.voted_for ≡ some (c'.current_term, c'.node_id)
      → r ≡ persist_or_demote o c' file
      → r.0 ≡ true
      → Holds r.2 r.1.current_term r.1.node_id
  campaign_Holds c' o r ready v e won =
      let (held, same) = write_Holds c' o c'.current_term c'.node_id ready refl v (rw e at won) in
      rw e (rw same held)

  pub force-Holds :
      (o : ReplaceOutcome)
      → let r = force_candidate_state o c file in
        r.0 ≡ true → Holds r.2 r.1.current_term r.1.node_id
  force-Holds o won = elim (force_cases o) [
    | inl e ↦ absurd (cc (e, won))
    | inr (f, e) ↦ campaign_Holds (campaign c) o _ (campaign-IsReady c.last_heartbeat f) refl e won
  ]

  pub check_cases :
      (o : ReplaceOutcome) (now : ℕ)
      → (check_election_timeout o now c file ≡ (false, c, file))
        ⊎ ((c.persistence_failed ≡ false)
            × (check_election_timeout o now c file
                ≡ persist_or_demote o (record (campaign c) { last_heartbeat = now }) file))
  unfolding check_election_timeout
  check_cases o now = ground arith

  pub check-Inv :
      (o : ReplaceOutcome) (now : ℕ)
      → Inv (suc b) (settle (check_election_timeout o now c file)) granted
  check-Inv o now = elim (check_cases o now) [
    | inl e ↦ rw e unchanged
    | inr (f, e) ↦ rw e (write_Inv _ o (campaign-IsReady now f))
  ]

  pub check-Holds :
      (o : ReplaceOutcome) (now : ℕ)
      → let r = check_election_timeout o now c file in
        r.0 ≡ true → Holds r.2 r.1.current_term r.1.node_id
  check-Holds o now won = elim (check_cases o now) [
    | inl e ↦ absurd (cc (e, won))
    | inr (f, e) ↦ campaign_Holds _ o _ (campaign-IsReady now f) refl e won
  ]

  abbrev follow : ℕ → ℕ → Controller
  follow now term = record c {
    voted_for = if ltb c.current_term term then none else c.voted_for;
    current_term = term;
    state = follower;
    last_heartbeat = now;
  }

  follow-IsReady :
      (now term : ℕ)
      → term ≤ b
      → c.persistence_failed ≡ false
      → c.current_term ≤ term
      → IsReady (suc b) file (follow now term)
  follow-IsReady now term tb f h = record {
    path = inv.synced.path;
    id_fits = inv.synced.id_fits;
    not_behind = omega (arith, inv.synced.not_behind);
    bound = omega arith;
    current = follow_current c.current_term term c.voted_for h inv.synced.current;
    grows =
        rw (inv.synced.same_term f, inv.synced.same_vote f)
          (follow-Grows c.current_term term c.voted_for h);
  }

  heartbeat_cases :
      (o : ReplaceOutcome) (now id term : ℕ)
      → (handle_leader_heartbeat o now id term c file ≡ (false, c, file))
        ⊎ ((c.persistence_failed ≡ false)
            × (c.current_term ≤ term)
            × (handle_leader_heartbeat o now id term c file
                ≡ persist_or_demote o (follow now term) file))
  unfolding handle_leader_heartbeat
  heartbeat_cases o now id term = ground arith

  pub heartbeat-Inv :
      (o : ReplaceOutcome) (now id term : ℕ)
      → term ≤ b
      → Inv (suc b) (settle (handle_leader_heartbeat o now id term c file)) granted
  heartbeat-Inv o now id term tb = elim (heartbeat_cases o now id term) [
    | inl e ↦ rw e unchanged
    | inr (f, h, e) ↦ rw e (write_Inv (follow now term) o (follow-IsReady now term tb f h))
  ]
