-- ===== src/Replication/Durable.antt =====
-- durable.rs: the atomic replacement of a small file.
use bifrox.Prelude.{ℕ, ◌≡◌, ◌⊎◌, Bool, true, false, Option, some, List, arith}

-- How far the operating system lets one call of `replace` come. The temporary file is written,
-- synced and renamed over the target; a failure up to the rename leaves the target as it was, and
-- a failure of the directory's sync comes after the rename.
pub data ReplaceOutcome : Type 0 where
  succeeds : ReplaceOutcome
  fails_before_rename : ReplaceOutcome
  fails_after_rename : ReplaceOutcome

-- The target's bytes; `none` if there is no such file.
abbrev pub FileContent : Type 0
FileContent = Option (List ℕ)

-- Whether the call returned `Ok`, and what the target holds then.
unfoldable pub replace : ReplaceOutcome → FileContent → List ℕ → Bool × FileContent
replace succeeds old bytes = (true, some bytes)
replace fails_before_rename old bytes = (false, old)
replace fails_after_rename old bytes = (false, some bytes)

-- Whatever happens, the file holds the old bytes or all of the new ones, and the new ones after `Ok`.
pub replace_atomic :
    (o : ReplaceOutcome) (old : FileContent) (bytes : List ℕ)
    → (((replace o old bytes).1 ≡ old) ⊎ ((replace o old bytes).1 ≡ some bytes))
      × ((replace o old bytes).0 ≡ true → (replace o old bytes).1 ≡ some bytes)
unfolding replace
replace_atomic o old bytes = ground arith
