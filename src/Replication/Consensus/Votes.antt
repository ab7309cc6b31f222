-- ===== src/Replication/Consensus/Votes.antt =====
-- A node over its whole life: calls of the controller's methods, failed writes and restarts in any
-- order, and the votes that it hands out. engine.rs:345-356 starts the controller, and any error of
-- `enable_persistence` ends the start.
pub mod Invariant
pub mod Methods
pub mod Requests
pub mod Restarts
pub mod Safety
use bifrox.Prelude.{
  ℕ, ◌+◌, ◌≤◌, ◌<◌, ◌^◌, Bool, true, false, Option, none, some, List, [], ◌∷◌, ◌++◌,
}
use bifrox.Replication.Durable.{ReplaceOutcome, FileContent}
use bifrox.Replication.Consensus.{
  Controller, ConsensusState, Outcome, new_with_state, enable_persistence, force_candidate_state,
  handle_leader_heartbeat, check_election_timeout, tally_election_votes, try_record_vote,
  step_down_to_follower,
}

-- `none` is a node that is not running.
pub record World : Type 0 where
  pub node : Option Controller
  pub file : FileContent

pub data Event : Type 0 where
  force : ReplaceOutcome → Event
  heartbeat : ReplaceOutcome → ℕ → ℕ → ℕ → Event
  election_check : ReplaceOutcome → ℕ → Event
  tally : ℕ → Event
  vote_request : ReplaceOutcome → ℕ → ℕ → ℕ → Event
  step_down : ReplaceOutcome → ℕ → ℕ → Event
  restart : ReplaceOutcome → ℕ → ℕ → ConsensusState → ℕ → Event

-- The outcome, time, node id, cluster size and initial state of a start.
unfoldable pub boot : ReplaceOutcome → ℕ → ℕ → ConsensusState → ℕ → FileContent → World
boot o id size initial now file =
    elim (enable_persistence o (new_with_state id size initial now) file) [
      | none ↦ record { node = none; file = file }
      | some (true, c, file') ↦ record { node = some c; file = file' }
      | some (false, c, file') ↦ record { node = none; file = file' }
    ]

abbrev pub tallied : Bool × Controller → FileContent → Outcome
tallied (won, c) file = (won, c, file)

unfoldable pub handle : Event → Controller → FileContent → Outcome
handle (force o) c file = force_candidate_state o c file
handle (heartbeat o now leader_id term) c file = handle_leader_heartbeat o now leader_id term c file
handle (election_check o now) c file = check_election_timeout o now c file
handle (tally votes) c file = tallied (tally_election_votes votes c) file
handle (vote_request o now candidate_id term) c file =
    try_record_vote o now candidate_id term c file
handle (step_down o now epoch) c file = step_down_to_follower o now epoch c file
handle (restart o id size initial now) c file = (false, c, file)

-- The vote, as term and candidate, that a call hands out: to the candidate whose request it
-- answers with `true`, and to the node itself when it begins a campaign.
abbrev pub grant_of : Event → Outcome → List (ℕ × ℕ)
grant_of (vote_request o now candidate_id term) (true, c, file) = (term, candidate_id) ∷ []
grant_of (force o) (true, c, file) = (c.current_term, c.node_id) ∷ []
grant_of (election_check o now) (true, c, file) = (c.current_term, c.node_id) ∷ []
grant_of _ _ = []

abbrev pub settle : Outcome → World
settle (b, c, file) = record { node = some c; file = file }

abbrev pub on_node : Event → Option Controller → FileContent → World × List (ℕ × ℕ)
on_node e none file = (record { node = none; file = file }, [])
on_node e (some c) file = (settle (handle e c file), grant_of e (handle e c file))

unfoldable pub step : Event → World → World × List (ℕ × ℕ)
step (restart o id size initial now) w = (boot o id size initial now w.file, [])
step e w = on_node e w.node w.file

-- The world after the events, and every vote handed out, before them or by them.
unfoldable pub run : List Event → World → List (ℕ × ℕ) → World × List (ℕ × ℕ)
run [] w granted = (w, granted)
run (e ∷ es) w granted = let (w', new) = step e w in run es w' (new ++ granted)

abbrev pub unborn : World
unborn = record { node = none; file = none }

-- The u64 terms of an event are at most `b`, and its u32 node ids are in range.
abbrev pub Fits : ℕ → Event → Type 0
Fits b (heartbeat o now leader_id term) = term ≤ b
Fits b (vote_request o now candidate_id term) = (term ≤ b) × (candidate_id < 2 ^ 32)
Fits b (step_down o now epoch) = epoch ≤ b
Fits b (restart o id size initial now) = id < 2 ^ 32
Fits b _ = Unit
