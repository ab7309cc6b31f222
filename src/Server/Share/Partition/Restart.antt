-- ===== src/Server/Share/Partition/Restart.antt =====
-- server/share/partition.rs: `restore` of a `snapshot`.
use mathlib.Core.List.{append-nil, append_assoc}
use bifrox.Prelude.{
  ℕ, ◌+◌, ◌%◌, ◌^◌, ◌≤◌, ◌<◌, ◌≡◌, refl, sym, subst, ◌∙◌, List, [], ◌∷◌, ◌++◌, map, arith,
}
use Prim.Native.Nat.{max}
use bifrox.Server.Share.Batches.{InFlightBatch, insert}
use bifrox.Server.Share.Batches.Tiling.{Tiled, Tiled-bound, Tiled-append, insert-behind}
use bifrox.Server.Share.Partition.{
  SharePartition, restored, restore_batches, restore, persisted, snapshot,
}
use bifrox.Server.Share.Partition.Order.{IsTiled}

-- The partition that a broker rebuilds from a snapshot.
unfoldable pub restart : SharePartition → SharePartition
unfolding restore snapshot
restart s =
    let (start, batches) = snapshot s in
    restore s.topic s.partition s.group_id s.default_lock_timeout s.max_delivery_attempts start
      batches

abbrev pub released : ℕ → InFlightBatch → InFlightBatch
released timeout b = restored timeout (persisted b)

abbrev Outcome : ℕ → ℕ → List InFlightBatch → ℕ × List InFlightBatch → Type 0
Outcome lo hi batches (next, bs) = Tiled lo next bs × (next ≤ hi) × (bs ≡ batches)

restore_batches-Tiled :
    (timeout lo next hi : ℕ) (pre bs : List InFlightBatch)
    → Tiled lo next pre
    → Tiled next hi bs
    → hi < 2 ^ 64
    → Outcome lo hi
        (pre ++ map (released timeout) bs)
        (restore_batches timeout (map persisted bs) (next, pre))
unfolding restore_batches
restore_batches-Tiled timeout lo next hi pre [] before behind small =
    (before, behind, sym (append-nil pre))
restore_batches-Tiled timeout lo next hi pre (b ∷ bs) before (l, g, r) small =
    let bound = Tiled-bound (b.last_offset + 1) hi bs r in
    let next' : max next ((b.last_offset + 1) % 2 ^ 64) ≡ b.last_offset + 1 = omega arith in
    let p = released timeout b in
    let inserted : insert p pre ≡ pre ++ (p ∷ []) = insert-behind p lo next pre before l in
    let (t, le, e) =
      restore_batches-Tiled timeout lo (b.last_offset + 1) hi (pre ++ (p ∷ [])) bs
        (Tiled-append lo next (b.last_offset + 1) pre (p ∷ []) before (l, g, omega arith)) r
        small in
    let same : (max next ((b.last_offset + 1) % 2 ^ 64), insert p pre)
        ≡ (b.last_offset + 1, pre ++ (p ∷ [])) =
      rw (next', inserted) in
    subst
      (λ a.
        Outcome lo hi (pre ++ map (released timeout) (b ∷ bs))
          (restore_batches timeout (map persisted bs) a))
      (sym same) (t, le, e ∙ append_assoc pre (p ∷ []) (map (released timeout) bs))

pub restart-released :
    (s : SharePartition)
    → IsTiled s
    → ((restart s).batches ≡ map (released s.default_lock_timeout) s.batches)
      × ((restart s).start_offset ≡ s.start_offset)
      × ((restart s).next_fetch_offset ≤ s.next_fetch_offset)
      × IsTiled (restart s)
unfolding restart
restart-released s (h, small) =
    let lo = s.start_offset in
    let bound = Tiled-bound lo s.next_fetch_offset s.batches h in
    let (t, le, e) =
      restore_batches-Tiled s.default_lock_timeout lo lo s.next_fetch_offset [] s.batches
        (omega arith) h small in
    (e, refl, le, (t, omega arith))
