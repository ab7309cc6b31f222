-- ===== src/Segment/IndexFile.antt =====
-- What segment/index.rs, timeindex.rs and txnindex.rs do alike: a file of entries of a fixed width,
-- beside the same entries in memory.
use mathlib.Core.List.{append-nil, append_assoc}
use bifrox.Prelude.{
  ℕ, zero, suc, ◌*◌, ◌/◌, ◌≡◌, refl, sym, ap, Bool, true, false, List, [], ◌∷◌, ◌++◌, All, length,
  take, drop, length-append, take-append, drop-append, arith,
}

-- How far `write_all` comes: a failure leaves the first bytes in the file.
pub data Written : Type 0 where
  completes : Written
  fails_after : ℕ → Written

unfoldable pub write_all : Written → List ℕ → List ℕ → Bool × List ℕ
write_all completes bytes file = (true, file ++ bytes)
write_all (fails_after k) bytes file = (false, file ++ take k bytes)

-- How far a rewrite of the file comes, by the call that fails: `set_len`, `seek`, the writes after
-- so many bytes, or `sync_data`.
pub data Rewritten : Type 0 where
  done fails_to_cut fails_to_seek fails_to_sync : Rewritten
  fails_writing : ℕ → Rewritten

module _ {E : Type 0} where
  unfoldable pub encode_all : (E → List ℕ) → List E → List ℕ
  encode_all encode [] = []
  encode_all encode (e ∷ es) = encode e ++ encode_all encode es

  -- The first `n` chunks of a width.
  unfoldable pub decode_all : (List ℕ → E) → ℕ → ℕ → List ℕ → List E
  decode_all decode width zero bytes = []
  decode_all decode width (suc n) bytes =
      decode (take width bytes) ∷ decode_all decode width n (drop width bytes)

  -- The entries in memory and the file after it, and whether it returned `Ok`. An entry is in memory
  -- as soon as all of it is written.
  unfoldable pub rewrite :
      (E → List ℕ) → ℕ → Rewritten → List E → List E × List ℕ → Bool × List E × List ℕ
  rewrite encode width done kept old = (true, kept, encode_all encode kept)
  rewrite encode width fails_to_cut kept (entries, file) = (false, entries, file)
  rewrite encode width fails_to_seek kept (entries, file) = (false, entries, [])
  rewrite encode width fails_to_sync kept old = (false, kept, encode_all encode kept)
  rewrite encode width (fails_writing k) kept old =
      (false, take (k / width) kept, take k (encode_all encode kept))

  pub encode_all-append :
      (encode : E → List ℕ) (es : List E) (e : E)
      → encode_all encode (es ++ (e ∷ [])) ≡ encode_all encode es ++ encode e
  unfolding encode_all
  encode_all-append encode [] e = append-nil (encode e)
  encode_all-append encode (x ∷ es) e =
      rw (encode_all-append encode es e)
        (sym (append_assoc (encode x) (encode_all encode es) (encode e)))

  pub length-encode_all :
      (encode : E → List ℕ) (width : ℕ) (es : List E)
      → ((e : E) → length (encode e) ≡ width)
      → length (encode_all encode es) ≡ length es * width
  unfolding encode_all
  length-encode_all encode width [] h = omega arith
  length-encode_all encode width (e ∷ es) h = omega (
    arith,
    length-append (encode e) (encode_all encode es),
    h e,
    length-encode_all encode width es h,
  )

  -- Decoding as many chunks as there are entries gives them back, whatever is behind them.
  pub decode_all-encode_all :
      (encode : E → List ℕ) (decode : List ℕ → E) (width : ℕ) (Fits : E → Type 0) (es : List E)
      (tail : List ℕ)
      → ((e : E) → length (encode e) ≡ width)
      → ((e : E) → Fits e → decode (encode e) ≡ e)
      → All Fits es
      → decode_all decode width (length es) (encode_all encode es ++ tail) ≡ es
  unfolding encode_all decode_all
  decode_all-encode_all encode decode width Fits [] tail len back fits = refl
  decode_all-encode_all encode decode width Fits (e ∷ es) tail len back (f, fs) =
      let rest = encode_all encode es in
      rw
        (
          append_assoc (encode e) rest tail,
          take-append (encode e) (rest ++ tail) width (len e),
          drop-append (encode e) (rest ++ tail) width (len e),
          back e f,
        )
        (ap (λ l. e ∷ l) (decode_all-encode_all encode decode width Fits es tail len back fs))
