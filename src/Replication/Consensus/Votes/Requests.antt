-- ===== src/Replication/Consensus/Votes/Requests.antt =====
-- Tallies, vote requests and stepping down keep the invariant.
use bifrox.Prelude.{
  ℕ, suc, ◌^◌, ◌≤◌, ◌<◌, ◌≡◌, refl, ◌∙◌, ◌⊎◌, inl, inr, true, false, Option, none, some, List,
  arith, ==_iff,
}
use bifrox.Replication.Durable.{ReplaceOutcome, FileContent}
use bifrox.Replication.Consensus.{
  Controller, leader, follower, persist_or_demote, tally_election_votes, try_record_vote,
  step_down_to_follower, adopt_term, vote_in_term,
}
use bifrox.Replication.Consensus.HardState.{VoteIsCurrent}
use bifrox.Replication.Consensus.Votes.{settle, tallied}
use bifrox.Replication.Consensus.Votes.Invariant.{Inv, IsReady, Grows, file_term, file_vote}
use bifrox.Replication.Consensus.Votes.Methods.{
  Holds, same_controller, unchanged, write_Inv, write_Holds,
}

vote_of_current :
    (term id : ℕ) (v : Option (ℕ × ℕ)) → vote_in_term term v ≡ some id → v ≡ some (term, id)
vote_of_current term id none h = cc h
vote_of_current term id (some (t, i)) h = ground (arith, ==_iff t term)

no_vote_of_current :
    (term : ℕ) (v : Option (ℕ × ℕ)) → VoteIsCurrent term v → vote_in_term term v ≡ none → v ≡ none
no_vote_of_current term none cur h = refl
no_vote_of_current term (some (t, i)) cur h = ground (arith, ==_iff t term)

-- The vote that a request finds, and the controller that would record one for it.
abbrev recording : ℕ → ℕ → ℕ → Controller → Controller
recording now candidate_id term c = record (adopt_term term c) {
  voted_for = some (term, candidate_id);
  last_heartbeat = now;
}

vote_cases :
    (o : ReplaceOutcome) (now candidate_id term : ℕ) (c : Controller) (file : FileContent)
    → (try_record_vote o now candidate_id term c file ≡ (false, c, file))
      ⊎ ((c.persistence_failed ≡ false)
          × (c.current_term < term)
          × (try_record_vote o now candidate_id term c file
              ≡ persist_or_demote o (recording now candidate_id term c) file))
      ⊎ ((c.persistence_failed ≡ false)
          × (c.current_term ≡ term)
          × (vote_in_term term c.voted_for ≡ none)
          × (try_record_vote o now candidate_id term c file
              ≡ persist_or_demote o (recording now candidate_id term c) file))
      ⊎ ((c.persistence_failed ≡ false)
          × (c.current_term ≡ term)
          × (vote_in_term term c.voted_for ≡ some candidate_id)
          × (try_record_vote o now candidate_id term c file ≡ (true, c, file)))
unfolding try_record_vote
vote_cases o now candidate_id term c file = ground arith

tally_cases :
    (votes : ℕ) (c : Controller)
    → (tally_election_votes votes c ≡ (false, c))
      ⊎ (tally_election_votes votes c ≡ (true, record c { state = leader }))
unfolding tally_election_votes
tally_cases votes c = ground arith

abbrev stepped_down : ℕ → ℕ → Controller → Controller
stepped_down now epoch c = record c {
  current_term = epoch;
  state = follower;
  voted_for = none;
  last_heartbeat = now;
}

step_down_cases :
    (o : ReplaceOutcome) (now epoch : ℕ) (c : Controller) (file : FileContent)
    → (step_down_to_follower o now epoch c file ≡ (false, c, file))
      ⊎ ((c.current_term < epoch)
          × (step_down_to_follower o now epoch c file
              ≡ persist_or_demote o (stepped_down now epoch c) file))
unfolding step_down_to_follower
step_down_cases o now epoch c file = ground arith

module _ (b : ℕ) (fits : suc b < 2 ^ 64) (c : Controller) (file : FileContent)
    (granted : List (ℕ × ℕ)) (inv : Inv b (record { node = some c; file = file }) granted) where
  pub tally-Inv :
      (votes : ℕ) → Inv (suc b) (settle (tallied (tally_election_votes votes c) file)) granted
  tally-Inv votes = elim (tally_cases votes c) [
    | inl e ↦ rw e (unchanged b fits c file granted inv)
    | inr e ↦ rw e (
        same_controller b fits c file granted inv (record c { state = leader })
          record {
            path = inv.synced.path;
            id_fits = inv.synced.id_fits;
            not_behind = inv.synced.not_behind;
            bound = inv.synced.bound;
            current = inv.synced.current;
            same_term = inv.synced.same_term;
            same_vote = inv.synced.same_vote;
          })
  ]

  pub step_down-Inv :
      (o : ReplaceOutcome) (now epoch : ℕ)
      → epoch ≤ b
      → Inv (suc b) (settle (step_down_to_follower o now epoch c file)) granted
  step_down-Inv o now epoch eb = elim (step_down_cases o now epoch c file) [
    | inl e ↦ rw e (unchanged b fits c file granted inv)
    | inr (h, e) ↦ rw e (
        write_Inv b fits c file granted inv (stepped_down now epoch c) o record {
          path = inv.synced.path;
          id_fits = inv.synced.id_fits;
          not_behind = omega (arith, inv.synced.not_behind);
          bound = omega arith;
          current = tt;
          grows = inl (omega (arith, inv.synced.not_behind));
        })
  ]

  adopt_facts :
      (term : ℕ)
      → c.current_term ≤ term
      → ((adopt_term term c).has_path ≡ c.has_path)
        × ((adopt_term term c).node_id ≡ c.node_id)
        × ((adopt_term term c).current_term ≡ term)
  adopt_facts term h = ground arith

  recording-IsReady :
      (now id term : ℕ)
      → term ≤ b
      → id < 2 ^ 32
      → c.current_term ≤ term
      → Grows (file_term file) (file_vote file) term (some (term, id))
      → IsReady (suc b) file (recording now id term c)
  recording-IsReady now id term tb fits_id h grows =
      let (p, n, t) = adopt_facts term h in
      record {
        path = p ∙ inv.synced.path;
        id_fits = rw n inv.synced.id_fits;
        not_behind = rw t (omega (arith, inv.synced.not_behind));
        bound = rw t (omega arith);
        current = rw t (refl, fits_id);
        grows = rw t grows;
      }

  -- A vote for `id` in `term`: either it is written, or it was cast and written before.
  newer-Grows :
      (term id : ℕ)
      → c.current_term < term
      → Grows (file_term file) (file_vote file) term (some (term, id))
  newer-Grows term id h = inl (omega (arith, inv.synced.not_behind))

  free-Grows :
      (term id : ℕ)
      → c.persistence_failed ≡ false
      → c.current_term ≡ term
      → vote_in_term term c.voted_for ≡ none
      → Grows (file_term file) (file_vote file) term (some (term, id))
  free-Grows term id f e v = inr (
    inv.synced.same_term f ∙ e,
    inl (
        inv.synced.same_vote f
        ∙ no_vote_of_current c.current_term c.voted_for inv.synced.current (rw e v)),
  )

  pub vote-Inv :
      (o : ReplaceOutcome) (now id term : ℕ)
      → term ≤ b
      → id < 2 ^ 32
      → Inv (suc b) (settle (try_record_vote o now id term c file)) granted
  vote-Inv o now id term tb fits_id = elim (vote_cases o now id term c file) [
    | inl e ↦ rw e (unchanged b fits c file granted inv)
    | inr (inl (f, h, e)) ↦ rw e (
        write_Inv b fits c file granted inv (recording now id term c) o
          (recording-IsReady now id term tb fits_id (omega arith) (newer-Grows term id h)))
    | inr (inr (inl (f, h, v, e))) ↦ rw e (
        write_Inv b fits c file granted inv (recording now id term c) o
          (recording-IsReady now id term tb fits_id (omega arith) (free-Grows term id f h v)))
    | inr (inr (inr (f, h, v, e))) ↦ rw e (unchanged b fits c file granted inv)
  ]

  recorded_Holds :
      (o : ReplaceOutcome) (now id term : ℕ)
      → IsReady (suc b) file (recording now id term c)
      → c.current_term ≤ term
      → (persist_or_demote o (recording now id term c) file).0 ≡ true
      → Holds (persist_or_demote o (recording now id term c) file).2 term id
  recorded_Holds o now id term ready h won =
      (write_Holds b fits c file granted inv (recording now id term c) o term id ready
        (adopt_facts term h).2 refl won).0

  -- A request is answered with `true` only when the file holds the vote.
  pub vote-Holds :
      (o : ReplaceOutcome) (now id term : ℕ)
      → term ≤ b
      → id < 2 ^ 32
      → (try_record_vote o now id term c file).0 ≡ true
      → Holds (try_record_vote o now id term c file).2 term id
  vote-Holds o now id term tb fits_id won = elim (vote_cases o now id term c file) [
    | inl e ↦ absurd (cc (e, won))
    | inr (inl (f, h, e)) ↦ rw e (
        recorded_Holds o now id term
          (recording-IsReady now id term tb fits_id (omega arith) (newer-Grows term id h))
          (omega arith) (rw e at won))
    | inr (inr (inl (f, h, v, e))) ↦ rw e (
        recorded_Holds o now id term
          (recording-IsReady now id term tb fits_id (omega arith) (free-Grows term id f h v))
          (omega arith) (rw e at won))
    | inr (inr (inr (f, h, v, e))) ↦
        rw e (
          inv.synced.same_term f ∙ h,
          inv.synced.same_vote f ∙ vote_of_current term id c.voted_for v,
        )
  ]
