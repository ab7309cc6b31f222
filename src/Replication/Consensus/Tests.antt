-- ===== src/Replication/Consensus/Tests.antt =====
-- Runs of the controller, and its theorems at concrete inputs.
use bifrox.Prelude.{ℕ, ◌≤◌, ◌≡◌, refl, inl, inr, true, false, none, some, List, [], ◌∷◌, arith}
use bifrox.Prelude.Bytes.{be_bytes, of_be_bytes}
use bifrox.Replication.Durable.{replace, succeeds, fails_before_rename}
use bifrox.Replication.Consensus.{
  Controller, follower, new_with_state, hard_state_bytes, persist, persist_or_demote, malformed,
  load_hard_state, enable_persistence, try_record_vote,
}
use bifrox.Replication.Consensus.HardState.{load-persist}
use bifrox.Replication.Consensus.Votes.{
  Event, force, vote_request, restart, boot, handle, step, run, unborn,
}
use bifrox.Replication.Consensus.Votes.Safety.{one_vote_per_term}
use bifrox.Replication.Consensus.Fencing.{IsFenced, IsFenced-run, term_never_falls}

abbrev node_one : Controller
node_one = record {
  node_id = 1;
  cluster_size = 3;
  state = follower;
  current_term = 5;
  voted_for = some (5, 2);
  last_heartbeat = 0;
  election_timeout = 1600;
  has_path = true;
  persistence_failed = false;
}

-- A vote, a crash, and the request of another candidate for the same term.
abbrev story : List Event
story =
    restart succeeds 1 3 follower 0
    ∷ vote_request succeeds 10 2 5
    ∷ restart succeeds 1 3 follower 20
    ∷ vote_request succeeds 30 3 5
    ∷ vote_request succeeds 40 2 5
    ∷ []

story_votes : (run story unborn []).1 ≡ (5, 2) ∷ (5, 2) ∷ []
unfolding run step boot enable_persistence new_with_state persist replace hard_state_bytes handle
    try_record_vote persist_or_demote malformed load_hard_state be_bytes of_be_bytes
story_votes = refl

one_vote_per_term_example : ◌≡◌ {A = ℕ} 2 2
unfolding run step boot enable_persistence new_with_state persist replace hard_state_bytes handle
    try_record_vote persist_or_demote malformed load_hard_state be_bytes of_be_bytes
one_vote_per_term_example =
    one_vote_per_term 5 story 5 2 2 (omega arith) (omega arith) (inl refl) (inr (inl refl))

load-persist_example :
    (malformed (hard_state_bytes node_one) ≡ false)
    × (load_hard_state node_one (hard_state_bytes node_one)
        ≡ record node_one { current_term = 5; voted_for = some (5, 2); state = follower })
load-persist_example = load-persist node_one node_one (omega arith) (refl, omega arith)

abbrev fenced : Controller
fenced = record node_one { persistence_failed = true }

IsFenced-run_example :
    let (w, granted) =
      run
        (force succeeds ∷ vote_request succeeds 9 3 7 ∷ [])
        (record { node = some fenced; file = none })
        [] in
    IsFenced w.node × (granted ≡ [])
IsFenced-run_example =
    IsFenced-run (force succeeds ∷ vote_request succeeds 9 3 7 ∷ []) fenced none [] (tt, (tt, tt))
      (refl, refl)

term_never_falls_example : 5 ≤ (handle (force fails_before_rename) node_one none).1.current_term
term_never_falls_example = term_never_falls (force fails_before_rename) node_one none (omega arith)
