-- ===== src/ConsumerGroup/Recovery.antt =====
-- consumer_group.rs: the inner loop of the recovery.
use bifrox.Prelude.{
  ℕ, zero, suc, ◌-◌, ◌≤◌, ◌<◌, ◌≡◌, refl, sym, ap, subst, ◌∙◌, inl, inr, ◌⊎◌, Bool, true, false,
  List, [], ◌∷◌, ◌++◌, length, length-append, arith,
}
use bifrox.Prelude.Text.{Text}
use bifrox.ConsumerGroup.{
  Entry, Reading, short, corrupt, got, read_frame, Recovered, settle, advanced, replay,
}
use bifrox.ConsumerGroup.Frames.{Extends, read_frame-Stable}
use bifrox.ConsumerGroup.Progress.{read_frame_shrinks}

abbrev pub append_buf : Recovered → List ℕ → Recovered
append_buf r more = record r { buf = r.buf ++ more }

no_bytes : (xs : List ℕ) → length xs ≤ 0 → xs ≡ []
no_bytes [] h = refl
no_bytes (x ∷ xs) h = absurd (omega arith)

module _ (is_utf8 : Text → Bool) (crc32 : Text → ℕ) where
  pub replay_empty : (n : ℕ) (r : Recovered) → r.buf ≡ [] → replay is_utf8 crc32 n r ≡ r
  unfolding replay read_frame
  replay_empty zero r h = refl
  replay_empty (suc n) r h = rw h refl

  pub replay-suc :
      (n : ℕ) (r : Recovered) (o : Reading Entry)
      → read_frame is_utf8 crc32 r.buf ≡ o
      → replay is_utf8 crc32 (suc n) r
        ≡ settle r (λ e rest. replay is_utf8 crc32 n (advanced r e rest)) o
  unfolding replay
  replay-suc n r o h = rw h refl

  -- More fuel than there are bytes changes nothing.
  pub replay_fuel :
      (n m : ℕ) (r : Recovered)
      → length r.buf ≤ n
      → length r.buf ≤ m
      → replay is_utf8 crc32 n r ≡ replay is_utf8 crc32 m r
  replay_fuel zero m r h k =
      replay_empty zero r (no_bytes r.buf h) ∙ sym (replay_empty m r (no_bytes r.buf h))
  replay_fuel (suc n) zero r h k =
      replay_empty (suc n) r (no_bytes r.buf k) ∙ sym (replay_empty zero r (no_bytes r.buf k))
  replay_fuel (suc n) (suc m) r h k =
      go (read_frame is_utf8 crc32 r.buf) refl
        (λ e rest lt. replay_fuel n m (advanced r e rest) (omega arith) (omega arith))
    where
      go :
          (o : Reading Entry)
          → read_frame is_utf8 crc32 r.buf ≡ o
          → ((e : Entry) (rest : List ℕ)
              → length rest < length r.buf
              → replay is_utf8 crc32 n (advanced r e rest)
                ≡ replay is_utf8 crc32 m (advanced r e rest))
          → replay is_utf8 crc32 (suc n) r ≡ replay is_utf8 crc32 (suc m) r
      go short e ih = replay-suc n r short e ∙ sym (replay-suc m r short e)
      go corrupt e ih = replay-suc n r corrupt e ∙ sym (replay-suc m r corrupt e)
      go (got a rest) e ih =
          replay-suc n r (got a rest) e
          ∙ ih a rest (read_frame_shrinks is_utf8 crc32 r.buf a rest e)
          ∙ sym (replay-suc m r (got a rest) e)

  -- What is recovered, apart from the buffer.
  abbrev pub SameResult : Recovered → Recovered → Type 0
  SameResult r s = (r.offsets ≡ s.offsets) × (r.last_good_pos ≡ s.last_good_pos)

  -- A replay of a part of the bytes, as it relates to a replay of all of them.
  abbrev pub Continues : Recovered → Recovered → List ℕ → Type 0
  Continues whole part more =
      (m : ℕ)
      → length (part.buf ++ more) ≤ m
      → ((part.is_corrupt ≡ true) × SameResult part whole)
        ⊎ ((part.is_corrupt ≡ false) × (whole ≡ replay is_utf8 crc32 m (append_buf part more)))

  advanced-append :
      (r : Recovered) (more : List ℕ) (e : Entry) (rest : List ℕ)
      → advanced (append_buf r more) e (rest ++ more) ≡ append_buf (advanced r e rest) more
  advanced-append r more e rest =
      let same : length (r.buf ++ more) - length (rest ++ more) ≡ length r.buf - length rest =
        omega (arith, length-append r.buf more, length-append rest more) in
      rw same refl

  paused :
      (r part : Recovered) (more : List ℕ) (w : ℕ)
      → r.is_corrupt ≡ false
      → length (r.buf ++ more) ≤ w
      → part ≡ r
      → Continues (replay is_utf8 crc32 w (append_buf r more)) part more
  paused r part more w clean k same =
      subst (λ p. Continues (replay is_utf8 crc32 w (append_buf r more)) p more) (sym same)
        (λ m fits. inr (clean, replay_fuel w m (append_buf r more) k fits))

  stopped :
      (r part : Recovered) (more : List ℕ) (w : ℕ)
      → length (r.buf ++ more) ≤ w
      → read_frame is_utf8 crc32 (r.buf ++ more) ≡ corrupt
      → part ≡ record r { is_corrupt = true }
      → Continues (replay is_utf8 crc32 w (append_buf r more)) part more
  stopped r part more w k e same =
      subst (λ p. Continues (replay is_utf8 crc32 w (append_buf r more)) p more) (sym same)
        (λ m fits.
          let whole =
            replay_fuel w (suc w) (append_buf r more) k (omega arith)
            ∙ replay-suc w (append_buf r more) corrupt e in
          inl (refl, (sym (ap (λ x. x.offsets) whole), sym (ap (λ x. x.last_good_pos) whole))))

  pub replay-Continues :
      (n : ℕ) (r : Recovered) (more : List ℕ) (w : ℕ)
      → r.is_corrupt ≡ false
      → length r.buf ≤ n
      → length (r.buf ++ more) ≤ w
      → Continues (replay is_utf8 crc32 w (append_buf r more)) (replay is_utf8 crc32 n r) more
  unfolding replay
  replay-Continues zero r more w clean h k =
      paused r (replay is_utf8 crc32 zero r) more w clean k refl
  replay-Continues (suc n) r more w clean h k =
      go (read_frame is_utf8 crc32 r.buf) refl (read_frame-Stable is_utf8 crc32 r.buf more)
        (λ a rest lt.
          replay-Continues n (advanced r a rest) more w clean (omega arith)
            (omega (arith, length-append rest more, length-append r.buf more)))
    where
      go :
          (o : Reading Entry)
          → read_frame is_utf8 crc32 r.buf ≡ o
          → Extends more o (read_frame is_utf8 crc32 (r.buf ++ more))
          → ((a : Entry) (rest : List ℕ)
              → length rest < length r.buf
              → Continues
                  (replay is_utf8 crc32 w (append_buf (advanced r a rest) more))
                  (replay is_utf8 crc32 n (advanced r a rest))
                  more)
          → Continues
              (replay is_utf8 crc32 w (append_buf r more))
              (replay is_utf8 crc32 (suc n) r)
              more
      go short e x ih =
          paused r (replay is_utf8 crc32 (suc n) r) more w clean k (replay-suc n r short e)
      go corrupt e x ih =
          stopped r (replay is_utf8 crc32 (suc n) r) more w k x (replay-suc n r corrupt e)
      go (got a rest) e x ih =
          let whole =
            replay_fuel w (suc w) (append_buf r more) k (omega arith)
            ∙ replay-suc w (append_buf r more) (got a (rest ++ more)) x
            ∙ ap (replay is_utf8 crc32 w) (advanced-append r more a rest) in
          subst (λ p. Continues (replay is_utf8 crc32 w (append_buf r more)) p more)
            (sym (replay-suc n r (got a rest) e))
            (subst (λ p. Continues p (replay is_utf8 crc32 n (advanced r a rest)) more) (sym whole)
              (ih a rest (read_frame_shrinks is_utf8 crc32 r.buf a rest e)))
