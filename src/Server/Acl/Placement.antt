-- ===== src/Server/Acl/Placement.antt =====
-- Each rule stays in the bucket of its key, so `authorize` finds it there.
use bifrox.Prelude.{
  ℕ, ◌≡◌, refl, sym, subst, Bool, true, false, not, Option, none, some, List, [], ◌∷◌, ◌++◌, ◌==◌,
  ==_iff, if◌then◌else◌, All, All-append, All-retain, nat_key, pair_key, Occurs, All-Occurs,
  any-Occurs, any_of_Occurs,
}
use bifrox.Prelude.Text.{Text, text_key}
use bifrox.Prelude.Table
use bifrox.Prelude.Table.{Table, get-insert}
use bifrox.Server.Acl.Rules.{AclBinding, same_binding, same_binding_iff, bucket_key}
use bifrox.Server.Acl.{
  AclManager, empty, or_empty, holds, bucket_of, put_bucket, add_acl, removed_from, remove_acl,
  contains,
}

-- A bucket under a literal key, or under a resource type, holds rules of that key or type only.
abbrev pub LiteralAt : ℕ × Text → AclBinding → Type 0
LiteralAt key b = bucket_key b ≡ some key

abbrev pub PatternedAt : ℕ → AclBinding → Type 0
PatternedAt t b = (bucket_key b ≡ none) × (b.resource_type ≡ t)

pub record IsPlaced (s : AclManager) : Type 0 where
  pub literal_at : (key : ℕ × Text) → All (LiteralAt key) (or_empty (Table.get key s.literal))
  pub patterned_at : (t : ℕ) → All (PatternedAt t) (or_empty (Table.get t s.patterned))

-- What a bucket for the rule `b` may hold.
abbrev FitsHome : Option (ℕ × Text) → AclBinding → AclBinding → Type 0
FitsHome (some key) b = LiteralAt key
FitsHome none b = PatternedAt b.resource_type

old_home :
    (k : Option (ℕ × Text)) (b : AclBinding) (s : AclManager)
    → IsPlaced s
    → All (FitsHome k b) (or_empty (bucket_of k b s))
old_home (some key) b s p = p.literal_at key
old_home none b s p = p.patterned_at b.resource_type

own_home : (k : Option (ℕ × Text)) (b : AclBinding) → bucket_key b ≡ k → FitsHome k b b
own_home (some key) b e = e
own_home none b e = (e, refl)

All-if :
    (P : AclBinding → Type 0) (shared : Bool) (bucket : List AclBinding)
    (o : Option (List AclBinding))
    → (shared ≡ true → All P bucket)
    → All P (or_empty o)
    → All P (or_empty (if shared then some bucket else o))
All-if P true bucket o h g = h refl
All-if P false bucket o h g = g

put_bucket-IsPlaced :
    (k : Option (ℕ × Text)) (b : AclBinding) (bucket : List AclBinding) (s : AclManager)
    → IsPlaced s
    → All (FitsHome k b) bucket
    → IsPlaced (put_bucket k b bucket s)
put_bucket-IsPlaced (some key) b bucket s p h = record {
  literal_at = λ j. rw get-insert (
      All-if (LiteralAt j) (pair_key.same key j) bucket (Table.get j s.literal)
        (λ e. subst (λ i. All (LiteralAt i) bucket) ((pair_key.same_iff key j).0 e) h)
        (p.literal_at j));
  patterned_at = p.patterned_at;
}
put_bucket-IsPlaced none b bucket s p h = record {
  literal_at = p.literal_at;
  patterned_at = λ t. rw get-insert (
      All-if (PatternedAt t) (b.resource_type == t) bucket (Table.get t s.patterned)
        (λ e. subst (λ i. All (PatternedAt i) bucket) ((==_iff b.resource_type t).0 e) h)
        (p.patterned_at t));
}

pub empty-IsPlaced : IsPlaced empty
unfolding Table.get
empty-IsPlaced = record { literal_at = λ key. tt; patterned_at = λ t. tt }

pub add_acl-IsPlaced : (b : AclBinding) (s : AclManager) → IsPlaced s → IsPlaced (add_acl b s).1
unfolding add_acl
add_acl-IsPlaced b s p = go (holds b (or_empty (bucket_of (bucket_key b) b s)))
  where
    home : List AclBinding
    home = or_empty (bucket_of (bucket_key b) b s)

    go :
        (known : Bool)
        → let r : Bool × AclManager =
            if known
            then (false, put_bucket (bucket_key b) b home s)
            else (true, put_bucket (bucket_key b) b (home ++ (b ∷ [])) s) in
          IsPlaced r.1
    go true = put_bucket-IsPlaced (bucket_key b) b home s p (old_home (bucket_key b) b s p)
    go false = put_bucket-IsPlaced (bucket_key b) b (home ++ (b ∷ [])) s p (
        All-append _ home (b ∷ []) (old_home (bucket_key b) b s p)
          (own_home (bucket_key b) b refl, tt))

pub remove_acl-IsPlaced :
    (b : AclBinding) (s : AclManager) → IsPlaced s → IsPlaced (remove_acl b s).1
unfolding remove_acl
remove_acl-IsPlaced b s p = go (bucket_of (bucket_key b) b s) (old_home (bucket_key b) b s p)
  where
    go :
        (o : Option (List AclBinding))
        → All (FitsHome (bucket_key b) b) (or_empty o)
        → IsPlaced (removed_from o b s).1
    go none h = p
    go (some bucket) h =
        put_bucket-IsPlaced (bucket_key b) b _ s p
          (All-retain _ (λ y. not (same_binding y b)) bucket h)

-- A rule that `contains` reports stands in the bucket of its key.
pub Occurs-home :
    (b : AclBinding) (s : AclManager)
    → contains b s ≡ true
    → Occurs b (or_empty (bucket_of (bucket_key b) b s))
unfolding contains
Occurs-home b s h =
    let (x, m, e) =
      any-Occurs (λ y. same_binding y b) (or_empty (bucket_of (bucket_key b) b s)) h in
    subst (λ y. Occurs y (or_empty (bucket_of (bucket_key b) b s))) ((same_binding_iff x b).0 e) m

holds_of_Occurs : (b : AclBinding) (bs : List AclBinding) → Occurs b bs → holds b bs ≡ true
holds_of_Occurs b bs m =
    any_of_Occurs (λ y. same_binding y b) b bs m ((same_binding_iff b b).1 refl)

-- A rule in a bucket is reported by `contains`.
pub contains_literal :
    (b : AclBinding) (key : ℕ × Text) (s : AclManager)
    → IsPlaced s
    → Occurs b (or_empty (Table.get key s.literal))
    → (contains b s ≡ true) × (bucket_key b ≡ some key)
unfolding contains
contains_literal b key s p m =
    let e = All-Occurs (LiteralAt key) b _ (p.literal_at key) m in (rw e (holds_of_Occurs b _ m), e)

pub contains_patterned :
    (b : AclBinding) (t : ℕ) (s : AclManager)
    → IsPlaced s
    → Occurs b (or_empty (Table.get t s.patterned))
    → (contains b s ≡ true) × (bucket_key b ≡ none) × (b.resource_type ≡ t)
unfolding contains
contains_patterned b t s p m =
    let (e, et) = All-Occurs (PatternedAt t) b _ (p.patterned_at t) m in
    (
      rw e (
          holds_of_Occurs b _
            (subst (λ i. Occurs b (or_empty (Table.get i s.patterned))) (sym et) m)),
      e,
      et,
    )
