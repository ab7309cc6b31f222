-- ===== src/Server/Acl/Buckets.antt =====
-- The store as a set of rules, with what `add_acl`, `remove_acl` and `contains` say of it.
use bifrox.Prelude.{
  ℕ, ◌≡◌, refl, sym, ap, ◌∙◌, Bool, true, false, not, ◌&&◌, ◌||◌, Option, none, some, List, [], ◌∷◌,
  ◌++◌, ◌==◌, ==_iff, if◌then◌else◌, any-append, retain, nat_key, pair_key, subst, length,
  length-retain, arith,
}
use bifrox.Prelude.Text.{Text, text_key}
use bifrox.Prelude.Table
use bifrox.Prelude.Table.{Table, get-insert}
use bifrox.Server.Acl.Rules.{AclBinding, same_binding, same_binding_iff, bucket_key}
use bifrox.Server.Acl.{
  AclManager, or_empty, holds, bucket_of, put_bucket, add_acl, removed_from, remove_acl, contains,
}

-- Whether two rules with these keys live in one bucket.
abbrev same_home : Option (ℕ × Text) → AclBinding → Option (ℕ × Text) → AclBinding → Bool
same_home (some k) b (some j) x = pair_key.same k j
same_home none b none x = b.resource_type == x.resource_type
same_home _ b _ x = false

bucket_of-put_bucket :
    (k : Option (ℕ × Text)) (b : AclBinding) (j : Option (ℕ × Text)) (x : AclBinding)
    (bucket : List AclBinding) (s : AclManager)
    → bucket_of j x (put_bucket k b bucket s)
      ≡ (if same_home k b j x then some bucket else bucket_of j x s)
bucket_of-put_bucket (some k) b (some j) x bucket s = get-insert k j bucket s.literal
bucket_of-put_bucket none b none x bucket s =
    get-insert b.resource_type x.resource_type bucket s.patterned
bucket_of-put_bucket (some k) b none x bucket s = refl
bucket_of-put_bucket none b (some j) x bucket s = refl

same_home_bucket :
    (k : Option (ℕ × Text)) (b : AclBinding) (j : Option (ℕ × Text)) (x : AclBinding)
    (s : AclManager)
    → same_home k b j x ≡ true
    → bucket_of j x s ≡ bucket_of k b s
same_home_bucket (some k) b (some j) x s h =
    ap (λ (i : ℕ × Text). Table.get i s.literal) (sym ((pair_key.same_iff k j).0 h))
same_home_bucket none b none x s h =
    ap (λ (i : ℕ). Table.get i s.patterned) (sym ((==_iff b.resource_type x.resource_type).0 h))
same_home_bucket (some k) b none x s h = cc h
same_home_bucket none b (some j) x s h = cc h

same_home_self : (k : Option (ℕ × Text)) (b : AclBinding) → same_home k b k b ≡ true
same_home_self (some k) b = (pair_key.same_iff k k).1 refl
same_home_self none b = (==_iff b.resource_type b.resource_type).1 refl

same_home_same :
    (b x : AclBinding)
    → same_binding b x ≡ true
    → same_home (bucket_key b) b (bucket_key x) x ≡ true
same_home_same b x h =
    subst (λ y. same_home (bucket_key b) b (bucket_key y) y ≡ true) ((same_binding_iff b x).0 h)
      (same_home_self (bucket_key b) b)

-- A write of `bucket` into the home of `b`, seen from a rule `x`.
contains-put_bucket :
    (b x : AclBinding) (bucket : List AclBinding) (s : AclManager)
    → let shared = same_home (bucket_key b) b (bucket_key x) x in
      contains x (put_bucket (bucket_key b) b bucket s)
      ≡ (if shared then holds x bucket else contains x s)
unfolding contains
contains-put_bucket b x bucket s =
    rw (bucket_of-put_bucket (bucket_key b) b (bucket_key x) x bucket s)
      (go (same_home (bucket_key b) b (bucket_key x) x))
  where
    go :
        (shared : Bool)
        → holds x (or_empty (if shared then some bucket else bucket_of (bucket_key x) x s))
          ≡ (if shared then holds x bucket else contains x s)
    go true = refl
    go false = refl

holds-append :
    (x b : AclBinding) (bs : List AclBinding)
    → holds x (bs ++ (b ∷ [])) ≡ (holds x bs || same_binding b x)
holds-append x b bs = any-append (λ y. same_binding y x) bs (b ∷ []) ∙ ground arith

abbrev home : AclBinding → AclManager → List AclBinding
home b s = or_empty (bucket_of (bucket_key b) b s)

contains_lem : (b : AclBinding) (s : AclManager) → contains b s ≡ holds b (home b s)
unfolding contains
contains_lem b s = refl

contains_shared :
    (b x : AclBinding) (s : AclManager)
    → same_home (bucket_key b) b (bucket_key x) x ≡ true
    → contains x s ≡ holds x (home b s)
contains_shared b x s h =
    contains_lem x s ∙ ap (λ o. holds x (or_empty o)) (same_home_bucket _ b _ x s h)

holds_same :
    (b x : AclBinding) (bs : List AclBinding) → same_binding b x ≡ true → holds x bs ≡ holds b bs
holds_same b x bs h = ap (λ y. holds y bs) (sym ((same_binding_iff b x).0 h))

-- After an addition a rule is stored if it is the new one or was stored before, and the result says
-- whether the rule was new.
pub contains-add_acl :
    (b x : AclBinding) (s : AclManager)
    → (contains x (add_acl b s).1 ≡ (same_binding b x || contains x s))
      × ((add_acl b s).0 ≡ not (contains b s))
unfolding add_acl
contains-add_acl b x s = ground (
  arith,
  contains-put_bucket b x (home b s) s,
  contains-put_bucket b x (home b s ++ (b ∷ [])) s,
  same_home_same b x,
  contains_shared b x s,
  contains_lem b s,
  holds-append x b (home b s),
  holds_same b x (home b s),
)

holds-retain :
    (b x : AclBinding) (bs : List AclBinding)
    → holds x (retain (λ y. not (same_binding y b)) bs) ≡ (not (same_binding b x) && holds x bs)
holds-retain b x [] = ground arith
holds-retain b x (y ∷ bs) =
    ground
      (arith, same_binding_iff y b, same_binding_iff b x, same_binding_iff y x, holds-retain b x bs)

length-retain_others :
    (b : AclBinding) (bs : List AclBinding)
    → not (length (retain (λ y. not (same_binding y b)) bs) == length bs) ≡ holds b bs
length-retain_others b [] = refl
length-retain_others b (y ∷ bs) = ground (
  arith,
  length-retain_others b bs,
  length-retain (λ (z : AclBinding). not (same_binding z b)) bs,
)

-- After a removal every other rule is stored as before and the removed one is not, and the result
-- says whether it was there.
pub contains-remove_acl :
    (b x : AclBinding) (s : AclManager)
    → (contains x (remove_acl b s).1 ≡ (not (same_binding b x) && contains x s))
      × ((remove_acl b s).0 ≡ contains b s)
unfolding remove_acl
contains-remove_acl b x s = go (bucket_of (bucket_key b) b s) refl
  where
    go :
        (o : Option (List AclBinding))
        → bucket_of (bucket_key b) b s ≡ o
        → (contains x (removed_from o b s).1 ≡ (not (same_binding b x) && contains x s))
          × ((removed_from o b s).0 ≡ contains b s)
    go none e = ground (arith, e, contains_lem b s, contains_shared b x s, same_home_same b x)
    go (some bucket) e = ground (
      arith,
      e,
      contains_lem b s,
      contains-put_bucket b x (retain (λ y. not (same_binding y b)) bucket) s,
      contains_shared b x s,
      same_home_same b x,
      holds-retain b x bucket,
      length-retain_others b bucket,
    )
