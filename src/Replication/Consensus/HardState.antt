-- ===== src/Replication/Consensus/HardState.antt =====
-- The 13 bytes of the hard-state file, written and read back.
use bifrox.Prelude.{
  ℕ, ◌^◌, ◌<◌, ◌≡◌, refl, false, Option, none, some, ◌∷◌, arith, ◌==◌, if◌then◌else◌, length-append,
  take, take-append, get_elem?-append_end, drop-append_suc,
}
use bifrox.Prelude.Bytes.{be_bytes, of_be_bytes, length-be_bytes, of_be_bytes-be_bytes}
use bifrox.Replication.Consensus.{
  Controller, leader, follower, hard_state_bytes, malformed, read_vote, load_hard_state, vote_flag,
  vote_id,
}

-- A vote is for the current term, and its candidate is a u32.
abbrev pub VoteIsCurrent : ℕ → Option (ℕ × ℕ) → Type 0
VoteIsCurrent term none = Unit
VoteIsCurrent term (some (t, id)) = (t ≡ term) × (id < 2 ^ 32)

pub malformed-hard_state_bytes : (c : Controller) → malformed (hard_state_bytes c) ≡ false
unfolding malformed hard_state_bytes
malformed-hard_state_bytes c =
    let term = be_bytes 8 c.current_term in
    let rest = be_bytes 4 (vote_id c.voted_for) in
    rw
      (
        get_elem?-append_end term rest (vote_flag c.voted_for) 8 (length-be_bytes 8 c.current_term),
        malformed,
      )
      (ground (
        arith,
        length-append term (vote_flag c.voted_for ∷ rest),
        length-be_bytes 8 c.current_term,
        length-be_bytes 4 (vote_id c.voted_for),
      ))

pub read_term :
    (c : Controller)
    → c.current_term < 2 ^ 64
    → of_be_bytes (take 8 (hard_state_bytes c)) ≡ c.current_term
unfolding hard_state_bytes
read_term c h =
    rw (take-append (be_bytes 8 c.current_term) _ 8 (length-be_bytes 8 c.current_term))
      (of_be_bytes-be_bytes 8 c.current_term (omega arith))

vote_back :
    (term : ℕ) (v : Option (ℕ × ℕ))
    → VoteIsCurrent term v
    → (if vote_flag v == 1 then some (term, of_be_bytes (be_bytes 4 (vote_id v))) else none) ≡ v
vote_back term none h = refl
vote_back term (some (t, id)) (e, h) = rw (of_be_bytes-be_bytes 4 id (omega arith), e)

pub read_vote-hard_state_bytes :
    (c : Controller)
    → VoteIsCurrent c.current_term c.voted_for
    → read_vote (hard_state_bytes c) c.current_term ≡ c.voted_for
unfolding hard_state_bytes
read_vote-hard_state_bytes c h =
    let term = be_bytes 8 c.current_term in
    let rest = be_bytes 4 (vote_id c.voted_for) in
    let flag = vote_flag c.voted_for in
    let e = length-be_bytes 8 c.current_term in
    rw (get_elem?-append_end term rest flag 8 e, read_vote)
      (rw (drop-append_suc term rest flag 8 e) (vote_back c.current_term c.voted_for h))

-- A controller `d` that reads the file which `c` wrote takes over the term and the vote of `c`, and
-- is the leader exactly in a cluster of one node, if `c` has a 64-bit term and a vote for that term.
pub load-persist :
    (c d : Controller)
    → c.current_term < 2 ^ 64
    → VoteIsCurrent c.current_term c.voted_for
    → (malformed (hard_state_bytes c) ≡ false)
      × (load_hard_state d (hard_state_bytes c) ≡ record d {
        current_term = c.current_term;
        voted_for = c.voted_for;
        state = if d.cluster_size == 1 then leader else follower;
      })
unfolding load_hard_state
load-persist c d h v =
    (malformed-hard_state_bytes c, rw (read_term c h) (rw (read_vote-hard_state_bytes c v)))
