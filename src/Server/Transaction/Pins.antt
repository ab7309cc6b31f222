-- ===== src/Server/Transaction/Pins.antt =====
-- The index of in-flight transactions as the set of its pins.
use bifrox.Prelude.{
  ℕ, ◌≡◌, refl, Bool, true, false, not, ◌&&◌, ◌||◌, Option, none, some, List, [], ◌∷◌, ◌==◌, ==_iff,
  if◌then◌else◌, nat_key, inl, inr, sym, ap, ◌∙◌, Bool-cases, arith,
}
use bifrox.Prelude.Text.{Text, same_text, same_text_iff, text_key}
use bifrox.Prelude.Table
use bifrox.Prelude.Table.{Table, get-insert, get-remove}
use bifrox.Server.Transaction.Lso.{
  TopicPartition, OffsetMap, LsoIndex, or_empty, same_partition, same_partition_iff, partition_key,
  holds, add_holder, drop_holder, pin_lso, null, unpin_offset, write_partition, unpin_lso, pinned,
}

holds-add_holder :
    (id j : Text) (hs : List Text) → holds j (add_holder id hs) ≡ (same_text id j || holds j hs)
holds-add_holder id j hs = elim (Bool-cases (holds id hs)) [
  | inl e ↦ rw e (known (same_text id j) refl e)
  | inr e ↦ rw e
]
  where
    known : (b : Bool) → same_text id j ≡ b → holds id hs ≡ true → holds j hs ≡ (b || holds j hs)
    known true e h = rw ((same_text_iff id j).0 e) at h
    known false e h = refl

holds-drop_holder :
    (id j : Text) (hs : List Text)
    → holds j (drop_holder id hs) ≡ (not (same_text id j) && holds j hs)
holds-drop_holder id j [] = ground arith
holds-drop_holder id j (h ∷ hs) =
    ground
      (arith, same_text_iff h id, same_text_iff h j, same_text_iff id j, holds-drop_holder id j hs)

-- Whether a transaction holds an offset back, within one partition.
abbrev pub at_offset : ℕ → Text → OffsetMap → Bool
at_offset offset id m = holds id (or_empty (Table.get offset m))

at_offset-insert :
    (o o' : ℕ) (i i' : Text) (m : OffsetMap)
    → at_offset o' i' (Table.insert o (add_holder i (or_empty (Table.get o m))) m)
      ≡ (o == o' && same_text i i' || at_offset o' i' m)
at_offset-insert o o' i i' m =
    rw get-insert (ground (arith, ==_iff o o', holds-add_holder i i' (or_empty (Table.get o m))))

abbrev at_key : TopicPartition → LsoIndex → OffsetMap
at_key key index = or_empty (Table.get key index)

or_empty-if :
    {A : Type 0} (b : Bool) (m : List A) (o : Option (List A))
    → or_empty (if b then some m else o) ≡ (if b then m else or_empty o)
or_empty-if true m o = refl
or_empty-if false m o = refl

at_key-insert :
    (key key' : TopicPartition) (m : OffsetMap) (index : LsoIndex)
    → at_key key' (Table.insert key m index)
      ≡ (if same_partition key key' then m else at_key key' index)
at_key-insert key key' m index =
    ap or_empty (get-insert key key' m index) ∙ or_empty-if (same_partition key key') m _

-- A write of the partition `key`, seen from another.
at_offset-if :
    (b : Bool) (o : ℕ) (i : Text) (m m' : OffsetMap)
    → at_offset o i (if b then m else m') ≡ (if b then at_offset o i m else at_offset o i m')
at_offset-if true o i m m' = refl
at_offset-if false o i m m' = refl

pinned-insert :
    (key key' : TopicPartition) (o : ℕ) (i : Text) (m : OffsetMap) (index : LsoIndex)
    → pinned key' o i (Table.insert key m index)
      ≡ (if same_partition key key' then at_offset o i m else pinned key' o i index)
unfolding pinned
pinned-insert key key' o i m index =
    ap (at_offset o i) (at_key-insert key key' m index)
    ∙ at_offset-if (same_partition key key') o i m (at_key key' index)

pinned_same :
    (key key' : TopicPartition) (o : ℕ) (i : Text) (index : LsoIndex)
    → same_partition key key' ≡ true
    → pinned key' o i index ≡ at_offset o i (at_key key index)
unfolding pinned
pinned_same key key' o i index e =
    ap (λ k. at_offset o i (at_key k index)) (sym ((same_partition_iff key key').0 e))

-- A pin is there after `pin_lso` if it is the new one or was there before.
pub pinned-pin_lso :
    (key key' : TopicPartition) (o o' : ℕ) (i i' : Text) (index : LsoIndex)
    → pinned key' o' i' (pin_lso key o i index)
      ≡ (same_partition key key' && (o == o' && same_text i i') || pinned key' o' i' index)
unfolding pin_lso
pinned-pin_lso key key' o o' i i' index = ground (
  arith,
  pinned-insert key key' o' i'
      (Table.insert o (add_holder i (or_empty (Table.get o (at_key key index)))) (at_key key index))
      index,
  pinned_same key key' o' i' index,
  at_offset-insert o o' i i' (at_key key index),
)

null_lem : {A : Type 0} (l : List A) → null l ≡ true → l ≡ []
null_lem [] h = refl
null_lem (x ∷ xs) h = cc h

-- The holders of an offset after `unpin_offset`.
get-unpin_offset :
    (o o' : ℕ) (i : Text) (m : OffsetMap)
    → or_empty (Table.get o' (unpin_offset o i m))
      ≡ (if o == o' then drop_holder i (or_empty (Table.get o m)) else or_empty (Table.get o' m))
get-unpin_offset o o' i m = go (Table.get o m) refl
  where
    go :
        (h : Option (List Text))
        → Table.get o m ≡ h
        → or_empty (
            Table.get o' (elim h [
              | none ↦ m
              | some holders ↦
                  if null (drop_holder i holders)
                  then Table.remove o m
                  else Table.insert o (drop_holder i holders) m
            ]))
          ≡ (if o == o' then drop_holder i (or_empty h) else or_empty (Table.get o' m))
    go none e = ground (arith, e, ==_iff o o')
    go (some holders) e = elim (Bool-cases (null (drop_holder i holders))) [
      | inl x ↦ rw x (rw get-remove (ground (arith, null_lem (drop_holder i holders))))
      | inr x ↦ rw x (rw get-insert (ground arith))
    ]

at_offset-unpin :
    (o o' : ℕ) (i i' : Text) (m : OffsetMap)
    → at_offset o' i' (unpin_offset o i m) ≡ (not (o == o' && same_text i i') && at_offset o' i' m)
at_offset-unpin o o' i i' m =
    rw (get-unpin_offset o o' i m)
      (ground (arith, ==_iff o o', holds-drop_holder i i' (or_empty (Table.get o m))))

pinned-remove :
    (key key' : TopicPartition) (o : ℕ) (i : Text) (index : LsoIndex)
    → pinned key' o i (Table.remove key index)
      ≡ (if same_partition key key' then false else pinned key' o i index)
unfolding pinned
pinned-remove key key' o i index = rw (get-remove key key' index) (go (same_partition key key'))
  where
    go :
        (b : Bool)
        → at_offset o i (or_empty (if b then none else Table.get key' index))
          ≡ (if b then false else at_offset o i (at_key key' index))
    go true = unfold Table.get in refl
    go false = refl

nothing_pinned : (o : ℕ) (i : Text) → at_offset o i [] ≡ false
unfolding Table.get
nothing_pinned o i = refl

pinned-write_partition :
    (key key' : TopicPartition) (o : ℕ) (i : Text) (m : OffsetMap) (index : LsoIndex)
    → pinned key' o i (write_partition key m index)
      ≡ (if same_partition key key' then at_offset o i m else pinned key' o i index)
pinned-write_partition key key' o i m index = elim (Bool-cases (null m)) [
  | inl e ↦ rw e (
      pinned-remove key key' o i index
      ∙ ap (λ b. if same_partition key key' then b else pinned key' o i index)
          (sym (ap (at_offset o i) (null_lem m e) ∙ nothing_pinned o i)))
  | inr e ↦ rw e (pinned-insert key key' o i m index)
]

-- After a round of `retire_from_lso_index` the pins are as before, less the one given.
pub pinned-unpin_lso :
    (key key' : TopicPartition) (o o' : ℕ) (i i' : Text) (index : LsoIndex)
    → pinned key' o' i' (unpin_lso key o i index)
      ≡ (not (same_partition key key' && (o == o' && same_text i i')) && pinned key' o' i' index)
unfolding unpin_lso
pinned-unpin_lso key key' o o' i i' index = go (Table.get key index) refl
  where
    go :
        (h : Option OffsetMap)
        → Table.get key index ≡ h
        → pinned key' o' i'
            (elim h [ none ↦ index | some m ↦ write_partition key (unpin_offset o i m) index ])
          ≡ (not (same_partition key key' && (o == o' && same_text i i'))
              && pinned key' o' i' index)
    go none e = ground (
      arith,
      pinned_same key key' o' i' index,
      ap (λ h. at_offset o' i' (or_empty h)) e,
      nothing_pinned o' i',
    )
    go (some m) e = ground (
      arith,
      pinned-write_partition key key' o' i' (unpin_offset o i m) index,
      pinned_same key key' o' i' index,
      ap (λ h. at_offset o' i' (or_empty h)) e,
      at_offset-unpin o o' i i' m,
    )
