-- ===== src/Replication/Consensus/Votes/Safety.antt =====
-- A node hands out at most one vote a term, whatever is written, lost or restarted.
use bifrox.Prelude.{
  ℕ, suc, ◌+◌, ◌^◌, ◌<◌, ◌≡◌, refl, ap, ◌∙◌, sym, inl, inr, true, false, Option, none, some, List,
  [], ◌∷◌, ◌++◌, arith, All, Occurs, length,
}
use native.Mathlib.Nat.{add-zero, add-suc, suc-add}
use bifrox.Replication.Durable.{FileContent}
use bifrox.Replication.Consensus.{Controller, Outcome}
use bifrox.Replication.Consensus.Votes.{
  World, Event, force, heartbeat, election_check, tally, vote_request, step_down, restart, handle,
  grant_of, settle, on_node, step, run, unborn, Fits,
}
use bifrox.Replication.Consensus.Votes.Invariant.{
  Inv, NodeIsSynced, Remembers, file_term, file_vote,
}
use bifrox.Replication.Consensus.Votes.Methods.{
  Holds, unchanged, force-Inv, force-Holds, check-Inv, check-Holds, heartbeat-Inv,
}
use bifrox.Replication.Consensus.Votes.Requests.{tally-Inv, step_down-Inv, vote-Inv, vote-Holds}
use bifrox.Replication.Consensus.Votes.Restarts.{boot-Inv}

-- Two votes for the same term name the same candidate.
abbrev AgreesWith : ℕ × ℕ → ℕ × ℕ → Type 0
AgreesWith (t, c) (t', c') = t' ≡ t → c' ≡ c

abbrev Agree : List (ℕ × ℕ) → Type 0
Agree [] = Unit
Agree (g ∷ granted) = All (AgreesWith g) granted × Agree granted

agree_remembered :
    (term t c : ℕ) (vote : Option (ℕ × ℕ)) (granted : List (ℕ × ℕ))
    → term ≡ t
    → vote ≡ some (t, c)
    → All (Remembers term vote) granted
    → All (AgreesWith (t, c)) granted
agree_remembered term t c vote [] et ev r = tt
agree_remembered term t c vote ((t', c') ∷ granted) et ev (r, rs) =
    ((λ e. ground arith), agree_remembered term t c vote granted et ev rs)

-- The invariant, and that all votes so far agree.
abbrev Safe : ℕ → World → List (ℕ × ℕ) → Type 0
Safe b w granted = Inv b w granted × Agree granted

grant-Safe :
    (b t c : ℕ) (w : World) (granted : List (ℕ × ℕ))
    → Safe b w granted
    → Holds w.file t c
    → Safe b w ((t, c) ∷ granted)
grant-Safe b t c w granted (i, a) (et, ev) = (
  record {
    synced = i.synced;
    file_bound = i.file_bound;
    file_current = i.file_current;
    remembered = (inr (sym et, ev), i.remembered);
  },
  (agree_remembered (file_term w.file) t c (file_vote w.file) granted et ev i.remembered, a),
)

abbrev GrantHolds : Event → Outcome → Type 0
GrantHolds (vote_request o now id term) r = r.0 ≡ true → Holds r.2 term id
GrantHolds (force o) r = r.0 ≡ true → Holds r.2 r.1.current_term r.1.node_id
GrantHolds (election_check o now) r = r.0 ≡ true → Holds r.2 r.1.current_term r.1.node_id
GrantHolds _ r = Unit

outcome-Safe :
    (b : ℕ) (e : Event) (r : Outcome) (granted : List (ℕ × ℕ))
    → Safe b (settle r) granted
    → GrantHolds e r
    → Safe b (settle r) (grant_of e r ++ granted)
outcome-Safe b (vote_request o now id term) (true, c, f) granted s g =
    grant-Safe b term id (settle (true, c, f)) granted s (g refl)
outcome-Safe b (force o) (true, c, f) granted s g =
    grant-Safe b c.current_term c.node_id (settle (true, c, f)) granted s (g refl)
outcome-Safe b (election_check o now) (true, c, f) granted s g =
    grant-Safe b c.current_term c.node_id (settle (true, c, f)) granted s (g refl)
outcome-Safe b (vote_request o now id term) (false, c, f) granted s g = s
outcome-Safe b (force o) (false, c, f) granted s g = s
outcome-Safe b (election_check o now) (false, c, f) granted s g = s
outcome-Safe b (heartbeat o now id term) r granted s g = s
outcome-Safe b (tally votes) r granted s g = s
outcome-Safe b (step_down o now epoch) r granted s g = s
outcome-Safe b (restart o id size initial now) r granted s g = s

module _ (b : ℕ) (fits : suc b < 2 ^ 64) (c : Controller) (file : FileContent)
    (granted : List (ℕ × ℕ)) (inv : Inv b (record { node = some c; file = file }) granted) where
  handle-Inv : (e : Event) → Fits b e → Inv (suc b) (settle (handle e c file)) granted
  unfolding handle
  handle-Inv (force o) h = force-Inv b fits c file granted inv o
  handle-Inv (heartbeat o now id term) h = heartbeat-Inv b fits c file granted inv o now id term h
  handle-Inv (election_check o now) h = check-Inv b fits c file granted inv o now
  handle-Inv (tally votes) h = tally-Inv b fits c file granted inv votes
  handle-Inv (vote_request o now id term) (h, k) =
      vote-Inv b fits c file granted inv o now id term h k
  handle-Inv (step_down o now epoch) h = step_down-Inv b fits c file granted inv o now epoch h
  handle-Inv (restart o id size initial now) h = unchanged b fits c file granted inv

  handle-Holds : (e : Event) → Fits b e → GrantHolds e (handle e c file)
  unfolding handle
  handle-Holds (force o) h = force-Holds b fits c file granted inv o
  handle-Holds (election_check o now) h = check-Holds b fits c file granted inv o now
  handle-Holds (vote_request o now id term) (h, k) =
      vote-Holds b fits c file granted inv o now id term h k
  handle-Holds (heartbeat o now id term) h = tt
  handle-Holds (tally votes) h = tt
  handle-Holds (step_down o now epoch) h = tt
  handle-Holds (restart o id size initial now) h = tt

raise_node :
    (b : ℕ) (file : FileContent) (node : Option Controller)
    → NodeIsSynced b file node
    → NodeIsSynced (suc b) file node
raise_node b file none s = tt
raise_node b file (some c) s = record {
  path = s.path;
  id_fits = s.id_fits;
  not_behind = s.not_behind;
  bound = omega (arith, s.bound);
  current = s.current;
  same_term = s.same_term;
  same_vote = s.same_vote;
}

raise_bound : (b : ℕ) (w : World) (granted : List (ℕ × ℕ)) → Inv b w granted → Inv (suc b) w granted
raise_bound b w granted i = record {
  synced = raise_node b w.file w.node i.synced;
  file_bound = omega (arith, i.file_bound);
  file_current = i.file_current;
  remembered = i.remembered;
}

on_node-Safe :
    (b : ℕ) (e : Event) (node : Option Controller) (file : FileContent) (granted : List (ℕ × ℕ))
    → suc b < 2 ^ 64
    → Fits b e
    → Safe b (record { node = node; file = file }) granted
    → Safe (suc b) (on_node e node file).0 ((on_node e node file).1 ++ granted)
on_node-Safe b e none file granted fits h (i, a) = (raise_bound b _ granted i, a)
on_node-Safe b e (some c) file granted fits h (i, a) =
    outcome-Safe (suc b) e (handle e c file) granted (handle-Inv b fits c file granted i e h, a)
      (handle-Holds b fits c file granted i e h)

step-Safe :
    (b : ℕ) (e : Event) (w : World) (granted : List (ℕ × ℕ))
    → suc b < 2 ^ 64
    → Fits b e
    → Safe b w granted
    → Safe (suc b) (step e w).0 ((step e w).1 ++ granted)
unfolding step
step-Safe b (restart o id size initial now) w granted fits h (i, a) =
    (boot-Inv (suc b) w granted o id size initial now fits h (raise_bound b w granted i), a)
step-Safe b (force o) w granted fits h s = on_node-Safe b (force o) w.node w.file granted fits h s
step-Safe b e w granted fits h s = on_node-Safe b e w.node w.file granted fits h s

Fits-suc : (b : ℕ) (e : Event) → Fits b e → Fits (suc b) e
Fits-suc b (heartbeat o now id term) h = omega arith
Fits-suc b (vote_request o now id term) h = (omega (arith, h.0), h.1)
Fits-suc b (step_down o now epoch) h = omega arith
Fits-suc b (restart o id size initial now) h = h
Fits-suc b (force o) h = tt
Fits-suc b (election_check o now) h = tt
Fits-suc b (tally votes) h = tt

All-Fits-suc : (b : ℕ) (es : List Event) → All (Fits b) es → All (Fits (suc b)) es
All-Fits-suc b [] h = tt
All-Fits-suc b (e ∷ es) (h, hs) = (Fits-suc b e h, All-Fits-suc b es hs)

-- The highest term goes up by at most one with each event.
run-Safe :
    (b : ℕ) (es : List Event) (w : World) (granted : List (ℕ × ℕ))
    → b + length es < 2 ^ 64
    → All (Fits b) es
    → Safe b w granted
    → Safe (b + length es) (run es w granted).0 (run es w granted).1
unfolding run
run-Safe b [] w granted room h s = rw (add-zero b) s
run-Safe b (e ∷ es) w granted room (h, hs) s =
    rw (add-suc b (length es), ← suc-add b (length es))
      (run-Safe (suc b) es (step e w).0 ((step e w).1 ++ granted) (omega arith)
        (All-Fits-suc b es hs) (step-Safe b e w granted (omega arith) h s))

unborn-Safe : (b : ℕ) → Safe b unborn []
unfolding file_term file_vote
unborn-Safe b =
    (record { synced = tt; file_bound = omega arith; file_current = tt; remembered = tt }, tt)

agree_head :
    (t c c' : ℕ) (granted : List (ℕ × ℕ))
    → All (AgreesWith (t, c)) granted
    → Occurs (t, c') granted
    → c' ≡ c
agree_head t c c' [] h m = absurd m
agree_head t c c' ((t', d) ∷ granted) (h, hs) (inl e) =
    ap (λ (g : ℕ × ℕ). g.1) e ∙ h (sym (ap (λ (g : ℕ × ℕ). g.0) e))
agree_head t c c' (g ∷ granted) (h, hs) (inr m) = agree_head t c c' granted hs m

Agree-Occurs :
    (t c c' : ℕ) (granted : List (ℕ × ℕ))
    → Agree granted
    → Occurs (t, c) granted
    → Occurs (t, c') granted
    → c ≡ c'
Agree-Occurs t c c' [] a m m' = absurd m
Agree-Occurs t c c' (g ∷ granted) (a, as_) (inr m) (inr m') = Agree-Occurs t c c' granted as_ m m'
Agree-Occurs t c c' (g ∷ granted) (a, as_) (inl e) (inl e') = ap (λ (p : ℕ × ℕ). p.1) (e ∙ sym e')
Agree-Occurs t c c' (g ∷ granted) (a, as_) (inl e) (inr m') =
    sym (agree_head t c c' granted (rw (← e) at a) m')
Agree-Occurs t c c' (g ∷ granted) (a, as_) (inr m) (inl e') =
    agree_head t c' c granted (rw (← e') at a) m

-- A node that starts with no hard-state file hands out at most one vote a term, to a candidate or
-- to itself, over any method calls, failed writes and restarts in any order, if ids are below 2^32
-- and the highest term of the messages plus the number of events stays below 2^64.
pub one_vote_per_term :
    (b : ℕ) (es : List Event) (t c c' : ℕ)
    → b + length es < 2 ^ 64
    → All (Fits b) es
    → Occurs (t, c) (run es unborn []).1
    → Occurs (t, c') (run es unborn []).1
    → c ≡ c'
one_vote_per_term b es t c c' room fits m m' =
    Agree-Occurs t c c' (run es unborn []).1 (run-Safe b es unborn [] room fits (unborn-Safe b)).1 m
      m'
