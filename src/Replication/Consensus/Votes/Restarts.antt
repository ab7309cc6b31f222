-- ===== src/Replication/Consensus/Votes/Restarts.antt =====
-- Starting the controller on the file that an earlier run left.
use bifrox.Prelude.{
  ℕ, ◌^◌, ◌≤◌, ◌<◌, ◌≡◌, refl, ◌⊎◌, inl, inr, Bool, true, false, none, some, List, arith, All,
}
use bifrox.Replication.Durable.{
  ReplaceOutcome, FileContent, succeeds, fails_before_rename, fails_after_rename, replace,
}
use bifrox.Replication.Consensus.{
  Controller, ConsensusState, leader, persist, hard_state_bytes, load_hard_state, new_with_state,
  enable_persistence, initial_vote,
}
use bifrox.Replication.Consensus.HardState.{VoteIsCurrent}
use bifrox.Replication.Consensus.Votes.{World, boot}
use bifrox.Replication.Consensus.Votes.Invariant.{
  Inv, IsReady, Remembers, written_Inv, persist_path, file_term, file_vote, new_term, new_vote,
}

abbrev started : Bool × FileContent → Controller → World
started (true, file) c = record { node = some c; file = file }
started (false, file) c = record { node = none; file = file }

module _ (b : ℕ) (fits : b < 2 ^ 64) (c : Controller) (file : FileContent) (granted : List (ℕ × ℕ))
    (ready : IsReady b file c) where
  -- The world after a successful write.
  written :
      All (Remembers (file_term file) (file_vote file)) granted
      → Inv b (record { node = some c; file = some (hard_state_bytes c) }) granted
  written r =
      written_Inv b fits c file ready c granted
        (record {
          path = ready.path;
          id_fits = ready.id_fits;
          not_behind = omega (arith, new_term b fits c file ready);
          bound = ready.bound;
          current = ready.current;
          same_term = λ _. new_term b fits c file ready;
          same_vote = λ _. new_vote b fits c file ready;
        })
        r

  started-Inv :
      (o : ReplaceOutcome)
      → file_term file ≤ b
      → VoteIsCurrent (file_term file) (file_vote file)
      → All (Remembers (file_term file) (file_vote file)) granted
      → Inv b (started (persist o c file) c) granted
  unfolding replace
  started-Inv succeeds fb v r = rw (persist_path c file ready.path succeeds) (written r)
  started-Inv fails_before_rename fb v r =
      rw (persist_path c file ready.path fails_before_rename)
        (record { synced = tt; file_bound = fb; file_current = v; remembered = r })
  started-Inv fails_after_rename fb v r =
      rw (persist_path c file ready.path fails_after_rename) record {
        synced = tt;
        file_bound = (written r).file_bound;
        file_current = (written r).file_current;
        remembered = (written r).remembered;
      }

abbrev fresh : ℕ → ℕ → ConsensusState → ℕ → Controller
fresh id size initial now = record (new_with_state id size initial now) { has_path = true }

boot_without_file :
    (o : ReplaceOutcome) (id size : ℕ) (initial : ConsensusState) (now : ℕ)
    → boot o id size initial now none
      ≡ started (persist o (fresh id size initial now) none) (fresh id size initial now)
unfolding boot enable_persistence
boot_without_file o id size initial now = ground arith

abbrev reloaded : ℕ → ℕ → ConsensusState → ℕ → List ℕ → Controller
reloaded id size initial now bytes =
    record (load_hard_state (new_with_state id size initial now) bytes) { has_path = true }

boot_with_file :
    (o : ReplaceOutcome) (id size : ℕ) (initial : ConsensusState) (now : ℕ) (bytes : List ℕ)
    → (boot o id size initial now (some bytes) ≡ record { node = none; file = some bytes })
      ⊎ (boot o id size initial now (some bytes)
          ≡ started
              (persist o (reloaded id size initial now bytes) (some bytes))
              (reloaded id size initial now bytes))
unfolding boot enable_persistence
boot_with_file o id size initial now bytes = ground arith

initial_current :
    (initial : ConsensusState) (id : ℕ) → id < 2 ^ 32 → VoteIsCurrent 0 (initial_vote initial id)
initial_current leader id h = (refl, h)
initial_current _ id h = tt

fresh-IsReady :
    (b id size : ℕ) (initial : ConsensusState) (now : ℕ)
    → id < 2 ^ 32
    → IsReady b none (fresh id size initial now)
unfolding new_with_state file_term file_vote
fresh-IsReady b id size initial now h = record {
  path = refl;
  id_fits = h;
  not_behind = omega arith;
  bound = omega arith;
  current = initial_current initial id h;
  grows = inr (refl, inl refl);
}

reloaded-IsReady :
    (b id size : ℕ) (initial : ConsensusState) (now : ℕ) (bytes : List ℕ)
    → id < 2 ^ 32
    → file_term (some bytes) ≤ b
    → VoteIsCurrent (file_term (some bytes)) (file_vote (some bytes))
    → IsReady b (some bytes) (reloaded id size initial now bytes)
unfolding new_with_state load_hard_state file_term file_vote
reloaded-IsReady b id size initial now bytes h fb v = record {
  path = refl;
  id_fits = h;
  not_behind = omega arith;
  bound = fb;
  current = v;
  grows = inr (refl, inr refl);
}

pub boot-Inv :
    (b : ℕ) (w : World) (granted : List (ℕ × ℕ)) (o : ReplaceOutcome) (id size : ℕ)
    (initial : ConsensusState) (now : ℕ)
    → b < 2 ^ 64
    → id < 2 ^ 32
    → Inv b w granted
    → Inv b (boot o id size initial now w.file) granted
boot-Inv b w granted o id size initial now fits h inv =
    go w.file inv.file_bound inv.file_current inv.remembered
  where
    go :
        (file : FileContent)
        → file_term file ≤ b
        → VoteIsCurrent (file_term file) (file_vote file)
        → All (Remembers (file_term file) (file_vote file)) granted
        → Inv b (boot o id size initial now file) granted
    go none fb v r = rw (boot_without_file o id size initial now) (
        started-Inv b fits (fresh id size initial now) none granted
          (fresh-IsReady b id size initial now h) o fb v r)
    go (some bytes) fb v r = elim (boot_with_file o id size initial now bytes) [
      | inl e ↦ rw e (record { synced = tt; file_bound = fb; file_current = v; remembered = r })
      | inr e ↦ rw e (
          started-Inv b fits (reloaded id size initial now bytes) (some bytes) granted
            (reloaded-IsReady b id size initial now bytes h fb v) o fb v r)
    ]
