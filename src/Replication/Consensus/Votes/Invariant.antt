-- ===== src/Replication/Consensus/Votes/Invariant.antt =====
-- What the file remembers of the votes handed out, through every event.
use bifrox.Prelude.{
  ℕ, ◌^◌, ◌≤◌, ◌<◌, ◌≡◌, ◌⊎◌, true, false, Option, none, some, List, [], ◌∷◌, arith, take, All,
}
use bifrox.Prelude.Bytes.{of_be_bytes}
use bifrox.Replication.Durable.{
  ReplaceOutcome, FileContent, replace, succeeds, fails_before_rename, fails_after_rename,
}
use bifrox.Replication.Consensus.{
  Controller, hard_state_bytes, read_vote, persist, persist_or_demote, demote_unless,
}
use bifrox.Replication.Consensus.HardState.{VoteIsCurrent, read_term, read_vote-hard_state_bytes}
use bifrox.Replication.Consensus.Votes.{World, settle}

abbrev Vote : Type 0
Vote = Option (ℕ × ℕ)

-- The term and the vote that the file holds.
unfoldable pub file_term : FileContent → ℕ
file_term none = 0
file_term (some bytes) = of_be_bytes (take 8 bytes)

unfoldable pub file_vote : FileContent → Vote
file_vote none = none
file_vote (some bytes) = read_vote bytes (of_be_bytes (take 8 bytes))

-- A vote is remembered if the term is over, or if the vote stands.
abbrev pub Remembers : ℕ → Vote → ℕ × ℕ → Type 0
Remembers term vote (t, c) = (t < term) ⊎ ((t ≡ term) × (vote ≡ some (t, c)))

abbrev pub Grows : ℕ → Vote → ℕ → Vote → Type 0
Grows t v t' v' = (t < t') ⊎ ((t ≡ t') × ((v ≡ none) ⊎ (v ≡ v')))

pub All-Remembers-Grows :
    (t t' : ℕ) (v v' : Vote) (h : List (ℕ × ℕ))
    → Grows t v t' v'
    → All (Remembers t v) h
    → All (Remembers t' v') h
All-Remembers-Grows t t' v v' [] g r = tt
All-Remembers-Grows t t' v v' ((a, b) ∷ h) g (r, rs) =
    (ground arith, All-Remembers-Grows t t' v v' h g rs)

pub record IsSynced (b : ℕ) (file : FileContent) (c : Controller) : Type 0 where
  pub path : c.has_path ≡ true
  pub id_fits : c.node_id < 2 ^ 32
  pub not_behind : file_term file ≤ c.current_term
  pub bound : c.current_term ≤ b
  pub current : VoteIsCurrent c.current_term c.voted_for
  pub same_term : c.persistence_failed ≡ false → file_term file ≡ c.current_term
  pub same_vote : c.persistence_failed ≡ false → file_vote file ≡ c.voted_for

abbrev pub NodeIsSynced : ℕ → FileContent → Option Controller → Type 0
NodeIsSynced b file none = Unit
NodeIsSynced b file (some c) = IsSynced b file c

pub record Inv (b : ℕ) (w : World) (granted : List (ℕ × ℕ)) : Type 0 where
  pub synced : NodeIsSynced b w.file w.node
  pub file_bound : file_term w.file ≤ b
  pub file_current : VoteIsCurrent (file_term w.file) (file_vote w.file)
  pub remembered : All (Remembers (file_term w.file) (file_vote w.file)) granted

written_term :
    (c : Controller)
    → c.current_term < 2 ^ 64
    → file_term (some (hard_state_bytes c)) ≡ c.current_term
unfolding file_term
written_term c h = read_term c h

written_vote :
    (c : Controller)
    → c.current_term < 2 ^ 64
    → VoteIsCurrent c.current_term c.voted_for
    → file_vote (some (hard_state_bytes c)) ≡ c.voted_for
unfolding file_vote
written_vote c h v = rw (read_term c h) (read_vote-hard_state_bytes c v)

-- What a method owes before it calls `persist_or_demote` on the controller that it prepared.
pub record IsReady (b : ℕ) (file : FileContent) (c : Controller) : Type 0 where
  pub path : c.has_path ≡ true
  pub id_fits : c.node_id < 2 ^ 32
  pub not_behind : file_term file ≤ c.current_term
  pub bound : c.current_term ≤ b
  pub current : VoteIsCurrent c.current_term c.voted_for
  pub grows : Grows (file_term file) (file_vote file) c.current_term c.voted_for

-- The three ways in which `persist_or_demote` ends on a controller with a file.
module _ (c : Controller) (file : FileContent) (path : c.has_path ≡ true) where
  pub persist_path : (o : ReplaceOutcome) → persist o c file ≡ replace o file (hard_state_bytes c)
  unfolding persist
  persist_path o = ground arith

  persist_succeeds : persist_or_demote succeeds c file ≡ (true, c, some (hard_state_bytes c))
  unfolding persist_or_demote persist replace
  persist_succeeds = ground arith

  persist_fails_before :
      persist_or_demote fails_before_rename c file ≡ (false, demote_unless false c, file)
  unfolding persist_or_demote persist replace
  persist_fails_before = ground arith

  persist_fails_after :
      persist_or_demote fails_after_rename c file
      ≡ (false, demote_unless false c, some (hard_state_bytes c))
  unfolding persist_or_demote persist replace
  persist_fails_after = ground arith

  -- The result is `true` only if the file was written.
  pub persist_or_demote-true :
      (o : ReplaceOutcome)
      → (persist_or_demote o c file).0 ≡ true
      → persist_or_demote o c file ≡ (true, c, some (hard_state_bytes c))
  persist_or_demote-true succeeds h = persist_succeeds
  persist_or_demote-true fails_before_rename h = cc (h, persist_fails_before)
  persist_or_demote-true fails_after_rename h = cc (h, persist_fails_after)

module _ (b : ℕ) (fits : b < 2 ^ 64) (c : Controller) (file : FileContent)
    (ready : IsReady b file c) where
  pub new_term : file_term (some (hard_state_bytes c)) ≡ c.current_term
  new_term = written_term c (omega (arith, ready.bound))

  pub new_vote : file_vote (some (hard_state_bytes c)) ≡ c.voted_for
  new_vote = written_vote c (omega (arith, ready.bound)) ready.current

  pub written_Inv :
      (c' : Controller) (granted : List (ℕ × ℕ))
      → IsSynced b (some (hard_state_bytes c)) c'
      → All (Remembers (file_term file) (file_vote file)) granted
      → Inv b (record { node = some c'; file = some (hard_state_bytes c) }) granted
  written_Inv c' granted s r = record {
    synced = s;
    file_bound = omega (arith, new_term, ready.bound);
    file_current = rw (new_term, new_vote) ready.current;
    remembered =
        rw (new_term, new_vote)
          (All-Remembers-Grows (file_term file) c.current_term (file_vote file) c.voted_for granted
            ready.grows r);
  }

  pub persist_or_demote-Inv :
      (o : ReplaceOutcome) (granted : List (ℕ × ℕ))
      → file_term file ≤ b
      → VoteIsCurrent (file_term file) (file_vote file)
      → All (Remembers (file_term file) (file_vote file)) granted
      → Inv b (settle (persist_or_demote o c file)) granted
  persist_or_demote-Inv succeeds granted fb v r = rw (persist_succeeds c file ready.path) (
      written_Inv c granted
        (record {
          path = ready.path;
          id_fits = ready.id_fits;
          not_behind = omega (arith, new_term);
          bound = ready.bound;
          current = ready.current;
          same_term = λ _. new_term;
          same_vote = λ _. new_vote;
        })
        r)
  persist_or_demote-Inv fails_before_rename granted fb v r =
      rw (persist_fails_before c file ready.path) record {
        synced = record {
          path = ready.path;
          id_fits = ready.id_fits;
          not_behind = ready.not_behind;
          bound = ready.bound;
          current = ready.current;
          same_term = λ e. cc e;
          same_vote = λ e. cc e;
        };
        file_bound = fb;
        file_current = v;
        remembered = r;
      }
  persist_or_demote-Inv fails_after_rename granted fb v r =
      rw (persist_fails_after c file ready.path) (
        written_Inv (demote_unless false c) granted
          (record {
            path = ready.path;
            id_fits = ready.id_fits;
            not_behind = omega (arith, new_term);
            bound = ready.bound;
            current = ready.current;
            same_term = λ e. cc e;
            same_vote = λ e. cc e;
          })
          r)
