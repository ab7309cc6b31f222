-- ===== src/Replication/Consensus/Fencing.antt =====
-- A node whose hard state could not be written, and the term over single calls.
use bifrox.Prelude.{
  ℕ, ◌+◌, ◌^◌, ◌≤◌, ◌<◌, ◌≡◌, refl, Bool, true, false, Option, none, some, List, [], ◌∷◌, arith,
  All,
}
use bifrox.Replication.Durable.{ReplaceOutcome, FileContent}
use bifrox.Replication.Consensus.{
  Controller, follower, persist_or_demote, persist, force_candidate_state, handle_leader_heartbeat,
  check_election_timeout, tally_election_votes, try_record_vote, step_down_to_follower,
  demote_unless,
}
use bifrox.Replication.Consensus.Votes.{
  Event, force, heartbeat, election_check, tally, vote_request, step_down, restart, handle,
  grant_of, settle, step, run,
}

abbrev pub IsFenced : Option Controller → Type 0
IsFenced none = ⊥
IsFenced (some c) = (c.persistence_failed ≡ true) × (c.state ≡ follower)

abbrev pub IsCall : Event → Type 0
IsCall (restart o id size initial now) = ⊥
IsCall _ = Unit

-- After `persist_or_demote` the term is that of the controller given to it, and so is the state,
-- unless the node is fenced.
pub persist_or_demote_keeps :
    (o : ReplaceOutcome) (c : Controller) (file : FileContent)
    → let r = persist_or_demote o c file in
      (r.1.current_term ≡ c.current_term)
      × ((c.state ≡ follower) → (r.1.state ≡ follower))
      × ((c.persistence_failed ≡ true) → (r.1.persistence_failed ≡ true))
unfolding persist_or_demote
persist_or_demote_keeps o c file = go (persist o c file).0
  where
    go :
        (b : Bool)
        → ((demote_unless b c).current_term ≡ c.current_term)
          × ((c.state ≡ follower) → ((demote_unless b c).state ≡ follower))
          × ((c.persistence_failed ≡ true) → ((demote_unless b c).persistence_failed ≡ true))
    go true = (refl, (λ h. h), (λ h. h))
    go false = (refl, (λ h. refl), (λ h. refl))

IsFenced-handle :
    (e : Event) (c : Controller) (file : FileContent)
    → IsCall e
    → IsFenced (some c)
    → IsFenced (some (handle e c file).1) × (grant_of e (handle e c file) ≡ [])
unfolding handle force_candidate_state handle_leader_heartbeat check_election_timeout
    tally_election_votes try_record_vote step_down_to_follower
IsFenced-handle (step_down o now epoch) c file k f = ground (
  arith,
  persist_or_demote_keeps o
      (record c { current_term = epoch; state = follower; voted_for = none; last_heartbeat = now })
      file,
)
IsFenced-handle (force o) c file k f = ground arith
IsFenced-handle (heartbeat o now id term) c file k f = ground arith
IsFenced-handle (election_check o now) c file k f = ground arith
IsFenced-handle (tally votes) c file k f = ground arith
IsFenced-handle (vote_request o now id term) c file k f = ground arith
IsFenced-handle (restart o id size initial now) c file k f = absurd k

step_call :
    (e : Event) (c : Controller) (file : FileContent)
    → IsCall e
    → step e (record { node = some c; file = file })
      ≡ (settle (handle e c file), grant_of e (handle e c file))
unfolding step
step_call (restart o id size initial now) c file k = absurd k
step_call (force o) c file k = refl
step_call _ c file k = refl

-- Until it is restarted, a fenced node stays a follower, stays fenced and hands out no vote.
pub IsFenced-run :
    (es : List Event) (c : Controller) (file : FileContent) (granted : List (ℕ × ℕ))
    → All IsCall es
    → IsFenced (some c)
    → let (w, granted') = run es (record { node = some c; file = file }) granted in
      IsFenced w.node × (granted' ≡ granted)
unfolding run
IsFenced-run [] c file granted k f = (f, refl)
IsFenced-run (e ∷ es) c file granted (k, ks) f =
    let (f', none_granted) = IsFenced-handle e c file k f in
    rw (step_call e c file k, run)
      (rw none_granted (IsFenced-run es (handle e c file).1 (handle e c file).2 granted ks f'))

-- No call lowers the term, as long as the term is not the last of the 64 bits.
pub term_never_falls :
    (e : Event) (c : Controller) (file : FileContent)
    → c.current_term + 1 < 2 ^ 64
    → c.current_term ≤ (handle e c file).1.current_term
unfolding handle force_candidate_state handle_leader_heartbeat check_election_timeout
    tally_election_votes try_record_vote step_down_to_follower persist_or_demote
term_never_falls (force o) c file h = ground arith
term_never_falls _ c file h = ground arith
