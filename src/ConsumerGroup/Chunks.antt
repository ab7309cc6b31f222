-- ===== src/ConsumerGroup/Chunks.antt =====
-- consumer_group.rs: the outer loop of the recovery, over the pieces of the file.
use mathlib.Core.List.{append_assoc, append-nil}
use bifrox.Prelude.{
  ℕ, zero, suc, ◌≤◌, ◌<◌, ◌≡◌, refl, sym, ap, subst, ◌∙◌, inl, inr, Bool, true, false, List, [],
  ◌∷◌, ◌++◌, if◌then◌else◌, length, All, arith,
}
use bifrox.Prelude.Text.{Text}
use bifrox.ConsumerGroup.{
  Entry, Reading, short, corrupt, got, read_frame, Recovered, advanced, replay, read_chunks, start,
  open_log,
}
use bifrox.ConsumerGroup.Progress.{read_frame_shrinks}
use bifrox.ConsumerGroup.Recovery.{
  append_buf, replay-suc, replay_fuel, SameResult, replay-Continues,
}

-- The file that its reads make up.
abbrev pub joined : List (List ℕ) → List ℕ
joined [] = []
joined (c ∷ cs) = c ++ joined cs

-- A read that is not at the end of the file returns at least a byte.
abbrev pub IsRead : List (List ℕ) → Type 0
IsRead chunks = All (λ c. 0 < length c) chunks

taken : (b : Bool) (x y : Recovered) → b ≡ true → (if b then x else y) ≡ x
taken b x y e = rw e refl

skipped : (b : Bool) (x y : Recovered) → b ≡ false → (if b then x else y) ≡ y
skipped b x y e = rw e refl

module _ (is_utf8 : Text → Bool) (crc32 : Text → ℕ) where
  -- Where no corrupt frame was found, too few bytes are left.
  abbrev Ends : Recovered → Type 0
  Ends r = r.is_corrupt ≡ false → read_frame is_utf8 crc32 r.buf ≡ short

  replay-Ends : (n : ℕ) (r : Recovered) → length r.buf ≤ n → Ends (replay is_utf8 crc32 n r)
  unfolding replay read_frame
  replay-Ends zero r h = go r.buf h
    where
      go :
          (buf : List ℕ)
          → length buf ≤ 0
          → r.is_corrupt ≡ false
          → read_frame is_utf8 crc32 buf ≡ short
      go [] h clean = refl
      go (b ∷ buf) h clean = absurd (omega arith)
  replay-Ends (suc n) r h =
      go (read_frame is_utf8 crc32 r.buf) refl
        (λ a rest lt. replay-Ends n (advanced r a rest) (omega arith))
    where
      go :
          (o : Reading Entry)
          → read_frame is_utf8 crc32 r.buf ≡ o
          → ((a : Entry) (rest : List ℕ)
              → length rest < length r.buf
              → Ends (replay is_utf8 crc32 n (advanced r a rest)))
          → Ends (replay is_utf8 crc32 (suc n) r)
      go short e ih = subst Ends (sym (replay-suc is_utf8 crc32 n r short e)) (λ clean. e)
      go corrupt e ih =
          subst Ends (sym (replay-suc is_utf8 crc32 n r corrupt e)) (λ clean. cc clean)
      go (got a rest) e ih =
          subst Ends (sym (replay-suc is_utf8 crc32 n r (got a rest) e))
            (ih a rest (read_frame_shrinks is_utf8 crc32 r.buf a rest e))

  pub read_chunks-joined :
      (chunks : List (List ℕ)) (r : Recovered) (w : ℕ)
      → IsRead chunks
      → r.is_corrupt ≡ false
      → read_frame is_utf8 crc32 r.buf ≡ short
      → length (r.buf ++ joined chunks) ≤ w
      → SameResult is_utf8 crc32
          (read_chunks is_utf8 crc32 chunks r)
          (replay is_utf8 crc32 w (append_buf r (joined chunks)))
  unfolding read_chunks
  read_chunks-joined [] r w reads clean ends fits =
      let e =
        replay_fuel is_utf8 crc32 w (suc w) (append_buf r []) fits (omega arith)
        ∙ replay-suc is_utf8 crc32 w (append_buf r []) short (rw (append-nil r.buf) ends) in
      (sym (ap (λ x. x.offsets) e), sym (ap (λ x. x.last_good_pos) e))
  read_chunks-joined ([] ∷ chunks) r w (pos, reads) clean ends fits = absurd (omega arith)
  read_chunks-joined ((b ∷ chunk) ∷ chunks) r w (pos, reads) clean ends fits =
      let c = b ∷ chunk in
      let s = append_buf r c in
      let n = length (r.buf ++ c) in
      let r' = replay is_utf8 crc32 n s in
      let whole = append_assoc r.buf c (joined chunks) in
      let fits' : length (s.buf ++ joined chunks) ≤ w = rw whole fits in
      let same : append_buf r (c ++ joined chunks) ≡ append_buf s (joined chunks) = rw whole refl in
      subst
        (λ x.
          SameResult is_utf8 crc32 (read_chunks is_utf8 crc32 (c ∷ chunks) r)
            (replay is_utf8 crc32 w x))
        (sym same)
        (elim (replay-Continues is_utf8 crc32 n s (joined chunks) w clean (omega arith) fits'
          (length (r'.buf ++ joined chunks)) (omega arith)) [
            | inl (bad, result) ↦
                subst
                  (λ x.
                    SameResult is_utf8 crc32 x
                      (replay is_utf8 crc32 w (append_buf s (joined chunks))))
                  (sym (taken r'.is_corrupt r' (read_chunks is_utf8 crc32 chunks r') bad)) result
            | inr (good, continued) ↦
                subst
                  (λ x.
                    SameResult is_utf8 crc32 x
                      (replay is_utf8 crc32 w (append_buf s (joined chunks))))
                  (sym (skipped r'.is_corrupt r' (read_chunks is_utf8 crc32 chunks r') good))
                  (subst (SameResult is_utf8 crc32 (read_chunks is_utf8 crc32 chunks r'))
                    (sym continued)
                    (read_chunks-joined chunks r' (length (r'.buf ++ joined chunks)) reads good
                      (replay-Ends n s (omega arith) good) (omega arith)))
          ])

  -- Two readings of the same file in pieces, none of them empty, recover the same state.
  pub open_log_chunks :
      (file : List ℕ) (chunks chunks' : List (List ℕ))
      → IsRead chunks
      → IsRead chunks'
      → joined chunks ≡ file
      → joined chunks' ≡ file
      → open_log is_utf8 crc32 file chunks ≡ open_log is_utf8 crc32 file chunks'
  unfolding open_log read_frame
  open_log_chunks file chunks chunks' reads reads' e e' =
      let (o, g) =
        read_chunks-joined chunks start (length (joined chunks)) reads refl refl (omega arith) in
      let (o', g') =
        read_chunks-joined chunks' start (length (joined chunks')) reads' refl refl (omega arith) in
      let joins : joined chunks ≡ joined chunks' = e ∙ sym e' in
      let result =
        ap (λ bytes. replay is_utf8 crc32 (length bytes) (append_buf start bytes)) joins in
      rw (o ∙ ap (λ r. r.offsets) result ∙ sym o', g ∙ ap (λ r. r.last_good_pos) result ∙ sym g')
        refl
