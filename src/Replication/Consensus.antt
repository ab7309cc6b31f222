-- ===== src/Replication/Consensus.antt =====
-- replication/consensus.rs: `BifroxConsensus`, the Raft term and vote of one node, with the file
-- that keeps them over a restart. The mutex is held over each whole method, so a method is one step.
-- `Instant::now()` is the argument `now`, in milliseconds; `Durable.replace` is given its outcome.
pub mod HardState
pub mod Votes
pub mod Fencing
mod Tests
use bifrox.Prelude.{
  ℕ, ◌+◌, ◌-◌, ◌*◌, ◌/◌, ◌%◌, ◌^◌, Bool, true, false, not, ◌&&◌, ◌||◌, Option, none, some, List, [],
  ◌∷◌, ◌++◌, ltb, leb, ◌==◌, if◌then◌else◌, length, take, drop, get_elem?,
}
use bifrox.Prelude.Bytes.{be_bytes, of_be_bytes}
use bifrox.Replication.Durable.{ReplaceOutcome, FileContent, replace}

pub data ConsensusState : Type 0 where
  follower candidate leader : ConsensusState

pub record Controller : Type 0 where
  pub node_id : ℕ
  pub cluster_size : ℕ
  pub state : ConsensusState
  pub current_term : ℕ
  pub voted_for : Option (ℕ × ℕ)
  pub last_heartbeat : ℕ
  pub election_timeout : ℕ
  -- `hard_state_path.is_some()`
  pub has_path : Bool
  pub persistence_failed : Bool

abbrev pub is_leader : ConsensusState → Bool
is_leader leader = true
is_leader _ = false

abbrev pub is_candidate : ConsensusState → Bool
is_candidate candidate = true
is_candidate _ = false

abbrev pub initial_vote : ConsensusState → ℕ → Option (ℕ × ℕ)
initial_vote leader id = some (0, id)
initial_vote _ id = none

unfoldable pub new_with_state : ℕ → ℕ → ConsensusState → ℕ → Controller
new_with_state node_id cluster_size initial_state now = record {
  node_id = node_id;
  cluster_size = cluster_size;
  state = initial_state;
  current_term = 0;
  voted_for = initial_vote initial_state node_id;
  last_heartbeat = now;
  election_timeout = 1500 + node_id * 100;
  has_path = false;
  persistence_failed = false;
}

abbrev pub vote_flag : Option (ℕ × ℕ) → ℕ
vote_flag none = 0
vote_flag (some v) = 1

abbrev pub vote_id : Option (ℕ × ℕ) → ℕ
vote_id none = 0
vote_id (some (term, id)) = id

-- The 13 bytes of the file: the term, whether there is a vote, and the candidate.
unfoldable pub hard_state_bytes : Controller → List ℕ
hard_state_bytes c =
    be_bytes 8 c.current_term ++ (vote_flag c.voted_for ∷ be_bytes 4 (vote_id c.voted_for))

unfoldable pub persist : ReplaceOutcome → Controller → FileContent → Bool × FileContent
persist o c disk = if c.has_path then replace o disk (hard_state_bytes c) else (true, disk)

abbrev pub demote_unless : Bool → Controller → Controller
demote_unless true c = c
demote_unless false c = record c { persistence_failed = true; state = follower }

-- A method's result: the Boolean that it returns, the controller and the file.
abbrev pub Outcome : Type 0
Outcome = Bool × Controller × FileContent

unfoldable pub persist_or_demote : ReplaceOutcome → Controller → FileContent → Outcome
persist_or_demote o c disk =
    let (written, disk') = persist o c disk in (written, demote_unless written c, disk')

-- The test `bytes.len() != 13 || bytes[8] > 1`.
unfoldable pub malformed : List ℕ → Bool
malformed bytes = elim (get_elem? bytes 8) [
  | none ↦ true
  | some flag ↦ not (length bytes == 13) || ltb 1 flag
]

abbrev pub read_vote : List ℕ → ℕ → Option (ℕ × ℕ)
read_vote bytes term = elim (get_elem? bytes 8) [
  | none ↦ none
  | some flag ↦ if flag == 1 then some (term, of_be_bytes (drop 9 bytes)) else none
]

-- What a well-formed file puts into the controller.
unfoldable pub load_hard_state : Controller → List ℕ → Controller
load_hard_state c bytes =
    let term = of_be_bytes (take 8 bytes) in
    record c {
      current_term = term;
      voted_for = read_vote bytes term;
      state = if c.cluster_size == 1 then leader else follower;
    }

-- `none` is the error of a malformed file, which changes nothing. A read error other than "not
-- found" returns before any change too, and has no case here.
unfoldable pub enable_persistence : ReplaceOutcome → Controller → FileContent → Option Outcome
enable_persistence o c none =
    let c' = record c { has_path = true } in
    let (written, disk') = persist o c' none in some (written, c', disk')
enable_persistence o c (some bytes) =
    if malformed bytes
    then none
    else (let c' = record (load_hard_state c bytes) { has_path = true } in
        let (written, disk') = persist o c' (some bytes) in some (written, c', disk'))

-- The u64 addition of a release build.
abbrev pub next_term : ℕ → ℕ
next_term t = (t + 1) % 2 ^ 64

abbrev pub campaign : Controller → Controller
campaign c = record c {
  state = candidate;
  current_term = next_term c.current_term;
  voted_for = some (next_term c.current_term, c.node_id);
}

unfoldable pub force_candidate_state : ReplaceOutcome → Controller → FileContent → Outcome
force_candidate_state o c disk =
    if c.persistence_failed then (false, c, disk) else persist_or_demote o (campaign c) disk

unfoldable pub handle_leader_heartbeat :
    ReplaceOutcome → ℕ → ℕ → ℕ → Controller → FileContent → Outcome
handle_leader_heartbeat o now leader_id term c disk =
    if c.persistence_failed
    then (false, c, disk)
    else if leb c.current_term term
    then persist_or_demote o
        (record c {
          voted_for = if ltb c.current_term term then none else c.voted_for;
          current_term = term;
          state = follower;
          last_heartbeat = now;
        })
        disk
    else (false, c, disk)

unfoldable pub check_election_timeout : ReplaceOutcome → ℕ → Controller → FileContent → Outcome
check_election_timeout o now c disk =
    if not c.persistence_failed
      && not (is_leader c.state)
      && leb c.election_timeout (now - c.last_heartbeat)
    then persist_or_demote o (record (campaign c) { last_heartbeat = now }) disk
    else (false, c, disk)

unfoldable pub tally_election_votes : ℕ → Controller → Bool × Controller
tally_election_votes votes c =
    if not c.persistence_failed && is_candidate c.state && leb (c.cluster_size / 2 + 1) votes
    then (true, record c { state = leader })
    else (false, c)

-- The part of `try_record_vote` before its `match`.
abbrev pub adopt_term : ℕ → Controller → Controller
adopt_term term c =
    if ltb c.current_term term
    then record c { current_term = term; state = follower; voted_for = none }
    else c

abbrev pub vote_in_term : ℕ → Option (ℕ × ℕ) → Option ℕ
vote_in_term term none = none
vote_in_term term (some (t, id)) = if t == term then some id else none

unfoldable pub try_record_vote : ReplaceOutcome → ℕ → ℕ → ℕ → Controller → FileContent → Outcome
try_record_vote o now candidate_id term c disk =
    if c.persistence_failed || ltb term c.current_term
    then (false, c, disk)
    else (let c' = adopt_term term c in
        elim (vote_in_term term c'.voted_for) [
          | some id ↦ (id == candidate_id, c', disk)
          | none ↦
              persist_or_demote o
                (record c' { voted_for = some (term, candidate_id); last_heartbeat = now }) disk
        ])

unfoldable pub step_down_to_follower : ReplaceOutcome → ℕ → ℕ → Controller → FileContent → Outcome
step_down_to_follower o now observed_epoch c disk =
    if ltb c.current_term observed_epoch
    then persist_or_demote o
        (record c {
          current_term = observed_epoch;
          state = follower;
          voted_for = none;
          last_heartbeat = now;
        })
        disk
    else (false, c, disk)
