-- ===== src/Server/Transaction/Lso.antt =====
-- server/transaction.rs: the index of in-flight transaction start offsets, from which the last
-- stable offset of a partition is read.
use Prim.Native.Nat.{min}
use bifrox.Prelude.{
  ℕ, ◌-◌, ◌^◌, ◌≤◌, ◌≡◌, refl, ◌↔◌, Bool, true, false, not, ◌&&◌, Option, none, some, List, [], ◌∷◌,
  ◌==◌, ==_iff, if◌then◌else◌, any, retain, Key, nat_key, inl, inr, Bool-cases, arith,
}
use bifrox.Prelude.Text.{Text, same_text, same_text_iff, text_key}
use bifrox.Prelude.Table
use bifrox.Prelude.Table.{Table, get-insert, get-remove}

abbrev pub u64_max : ℕ
u64_max = 2 ^ 64 - 1

-- A topic and a partition of it.
abbrev pub TopicPartition : Type 0
TopicPartition = Text × ℕ

unfoldable pub same_partition : TopicPartition → TopicPartition → Bool
same_partition (t, p) (t', p') = same_text t t' && p == p'

pub same_partition_iff : (a b : TopicPartition) → (same_partition a b ≡ true) ↔ (a ≡ b)
unfolding same_partition
same_partition_iff (t, p) (t', p') = ground (arith, same_text_iff t t')

instance abbrev pub partition_key : Key TopicPartition
partition_key = record { same = same_partition; same_iff = same_partition_iff }

-- `LsoOffsetMap`: the transactions that hold each offset. `LsoIndex`: that for each partition.
abbrev pub OffsetMap : Type 0
OffsetMap = Table ℕ (List Text)

abbrev pub LsoIndex : Type 0
LsoIndex = Table TopicPartition OffsetMap

abbrev pub or_empty : {A : Type 0} → Option (List A) → List A
or_empty none = []
or_empty (some l) = l

abbrev pub holds : Text → List Text → Bool
holds id = any (λ h. same_text h id)

-- `HashSet::insert` and `HashSet::remove`.
abbrev pub add_holder : Text → List Text → List Text
add_holder id holders = if holds id holders then holders else id ∷ holders

abbrev pub drop_holder : Text → List Text → List Text
drop_holder id = retain (λ h. not (same_text h id))

unfoldable pub pin_lso : TopicPartition → ℕ → Text → LsoIndex → LsoIndex
pin_lso key first_offset id index =
    let per_partition = or_empty (Table.get key index) in
    let holders = or_empty (Table.get first_offset per_partition) in
    Table.insert key (Table.insert first_offset (add_holder id holders) per_partition) index

abbrev pub null : {A : Type 0} → List A → Bool
null [] = true
null (x ∷ xs) = false

abbrev pub unpin_offset : ℕ → Text → OffsetMap → OffsetMap
unpin_offset offset id m = elim (Table.get offset m) [
  | none ↦ m
  | some holders ↦
      if null (drop_holder id holders)
      then Table.remove offset m
      else Table.insert offset (drop_holder id holders) m
]

abbrev pub write_partition : TopicPartition → OffsetMap → LsoIndex → LsoIndex
write_partition key m index = if null m then Table.remove key index else Table.insert key m index

-- One round of the loop of `retire_from_lso_index`.
unfoldable pub unpin_lso : TopicPartition → ℕ → Text → LsoIndex → LsoIndex
unpin_lso key offset id index = elim (Table.get key index) [
  | none ↦ index
  | some m ↦ write_partition key (unpin_offset offset id m) index
]

-- The first key of the ordered map.
abbrev pub least_key : OffsetMap → ℕ
least_key [] = u64_max
least_key ((offset, holders) ∷ m) = min offset (least_key m)

unfoldable pub last_stable_offset : TopicPartition → LsoIndex → ℕ
last_stable_offset key index = least_key (or_empty (Table.get key index))

-- Whether a transaction holds an offset of a partition back.
unfoldable pub pinned : TopicPartition → ℕ → Text → LsoIndex → Bool
pinned key offset id index = holds id (or_empty (Table.get offset (or_empty (Table.get key index))))

least_key_le : (o : ℕ) (m : OffsetMap) (h : List Text) → Table.get o m ≡ some h → least_key m ≤ o
unfolding Table.get
least_key_le o [] h e = cc e
least_key_le o ((k, w) ∷ m) h e = elim (Bool-cases (k == o)) [
  | inl x ↦ omega (arith, (==_iff k o).0 x)
  | inr x ↦ omega (arith, least_key_le o m h (rw x at e))
]

-- The last stable offset is not beyond an offset that some transaction holds back.
pub last_stable_offset-le :
    (key : TopicPartition) (o : ℕ) (i : Text) (index : LsoIndex)
    → pinned key o i index ≡ true
    → last_stable_offset key index ≤ o
unfolding pinned last_stable_offset
last_stable_offset-le key o i index h = go (Table.get o (or_empty (Table.get key index))) refl h
  where
    go :
        (x : Option (List Text))
        → Table.get o (or_empty (Table.get key index)) ≡ x
        → holds i (or_empty x) ≡ true
        → least_key (or_empty (Table.get key index)) ≤ o
    go none e y = cc y
    go (some hs) e y = least_key_le o (or_empty (Table.get key index)) hs e
