-- ===== src/Server/Share/Batches.antt =====
-- server/share/partition.rs: the map of in-flight batches. Everywhere in the code the key of a batch
-- is its first offset, so the ordered map is the list of its values in the order of their first
-- offsets. Times are milliseconds.
pub mod Tiling
pub mod Passes
use bifrox.Prelude.{
  ℕ, zero, suc, ◌+◌, ◌-◌, ◌%◌, ◌^◌, Bool, true, false, ◌&&◌, Option, none, some, List, [], ◌∷◌, ltb,
  leb, ◌==◌, if◌then◌else◌, length,
}
use bifrox.Prelude.Text.{Text}

pub data ShareRecordState : Type 0 where
  available acquired acknowledged archived : ShareRecordState

abbrev pub is_available : ShareRecordState → Bool
is_available available = true
is_available _ = false

abbrev pub is_acquired : ShareRecordState → Bool
is_acquired acquired = true
is_acquired _ = false

abbrev pub is_terminal : ShareRecordState → Bool
is_terminal acknowledged = true
is_terminal archived = true
is_terminal _ = false

abbrev pub state_to_byte : ShareRecordState → ℕ
state_to_byte available = 0
state_to_byte acquired = 1
state_to_byte acknowledged = 2
state_to_byte archived = 3

abbrev pub state_from_byte : ℕ → Option ShareRecordState
state_from_byte b =
    if b == 0
    then some available
    else if b == 1
    then some acquired
    else if b == 2
    then some acknowledged
    else if b == 3
    then some archived
    else none

pub record InFlightBatch : Type 0 where
  pub first_offset : ℕ
  pub last_offset : ℕ
  pub state : ShareRecordState
  pub acquired_by : Option Text
  pub acquired_at : Option ℕ
  pub lock_timeout : ℕ
  pub delivery_count : ℕ

-- `BTreeMap::get`, `insert` and `remove`.
unfoldable pub find : ℕ → List InFlightBatch → Option InFlightBatch
find key [] = none
find key (b ∷ bs) = if b.first_offset == key then some b else find key bs

unfoldable pub insert : InFlightBatch → List InFlightBatch → List InFlightBatch
insert b [] = b ∷ []
insert b (c ∷ cs) =
    let rest = insert b cs in
    if ltb b.first_offset c.first_offset
    then b ∷ c ∷ cs
    else if b.first_offset == c.first_offset
    then b ∷ cs
    else c ∷ rest

unfoldable pub remove : ℕ → List InFlightBatch → List InFlightBatch
remove key [] = []
remove key (b ∷ bs) = let rest = remove key bs in if b.first_offset == key then bs else b ∷ rest

-- Several insertions, one after the other.
unfoldable pub insert_all : List InFlightBatch → List InFlightBatch → List InFlightBatch
insert_all [] bs = bs
insert_all (p ∷ ps) bs = insert_all ps (insert p bs)

-- The keys that a loop collects before it changes the map.
unfoldable pub keys_where : (InFlightBatch → Bool) → List InFlightBatch → List ℕ
keys_where p [] = []
keys_where p (b ∷ bs) = let rest = keys_where p bs in if p b then b.first_offset ∷ rest else rest

-- The batches that meet a range of offsets.
abbrev pub meets : ℕ → ℕ → InFlightBatch → Bool
meets target_first target_last b = leb b.first_offset target_last && leb target_first b.last_offset

-- The shape of the loops over such keys: a batch that is still there is taken out of the map, and
-- what becomes of it is put back. `S` is what else the loop changes.
module _ {S : Type 0} where
  abbrev pub put_back : ℕ → List InFlightBatch → List InFlightBatch × S → List InFlightBatch × S
  put_back key bs (pieces, s) = (insert_all pieces (remove key bs), s)

  abbrev pub visit_found :
      (InFlightBatch → S → List InFlightBatch × S)
      → ℕ
      → List InFlightBatch × S
      → Option InFlightBatch
      → List InFlightBatch × S
  visit_found f key (bs, s) none = (bs, s)
  visit_found f key (bs, s) (some b) = put_back key bs (f b s)

  unfoldable pub visit :
      (InFlightBatch → S → List InFlightBatch × S)
      → List ℕ
      → List InFlightBatch × S
      → List InFlightBatch × S
  visit f [] (bs, s) = (bs, s)
  visit f (key ∷ keys) (bs, s) = visit f keys (visit_found f key (bs, s) (find key bs))

-- `pop_first` as long as the first batch stands at the watermark and is resolved; the watermark, and
-- the batches that are left.
unfoldable pub advance : ℕ → List InFlightBatch → ℕ × List InFlightBatch
advance start [] = (start, [])
advance start (b ∷ bs) =
    let rest = advance ((b.last_offset + 1) % 2 ^ 64) bs in
    if b.first_offset == start && is_terminal b.state then rest else (start, b ∷ bs)
