-- ===== src/Server/Acl/Decision.antt =====
-- What `authorize` decides, said of the set of stored rules.
use mathlib.Core.Bool.{false≢true}
use bifrox.Prelude.{
  ℕ, ◌≡◌, ◌≢◌, ◌↔◌, refl, subst, inl, inr, Bool, true, false, not, ◌&&◌, ◌||◌, Option, none, some,
  List, [], ◌∷◌, ◌++◌, any, Key, nat_key, pair_key, Bool-cases, arith, Occurs, Occurs-append_left,
  Occurs-append_right, Occurs-of_append, any-Occurs, any_of_Occurs,
}
use bifrox.Prelude.Text.{Text, same_text, same_text_iff, text_key}
use bifrox.Prelude.Table
use bifrox.Prelude.Table.{Table, get-insert}
use bifrox.Server.Acl.Cidr.{IpParser}
use bifrox.Server.Acl.Rules.{
  AclBinding, Request, star, bucket_key, pattern_of, name_matches, matches_rule,
}
use bifrox.Server.Acl.{
  AclManager, or_empty, holds, bucket_of, put_bucket, add_acl, contains, all_empty, is_empty,
  candidates, applies, authorize,
}
use bifrox.Server.Acl.Placement.{IsPlaced, Occurs-home, contains_literal, contains_patterned}

all_empty-get :
    {K : Type 0} ⦃k : Key K⦄ (a : K) (m : Table K (List AclBinding))
    → all_empty m ≡ true
    → or_empty (Table.get a m) ≡ []
unfolding Table.get
all_empty-get a [] h = refl
all_empty-get ⦃k⦄ a ((b, []) ∷ m) h = ground (arith, all_empty-get a m h)
all_empty-get a ((b, x ∷ xs) ∷ m) h = cc h

candidates_empty : (r : Request) (s : AclManager) → is_empty s ≡ true → candidates r s ≡ []
unfolding candidates is_empty
candidates_empty r s h =
    rw (all_empty-get (r.resource_type, r.resource_name) s.literal (ground arith))
      (all_empty-get r.resource_type s.patterned (ground arith))

-- Whether a principal is exempt from the rules.
abbrev pub is_super : Request → List Text → Bool
is_super r = any (λ u. same_text u r.principal || same_text u star)

not_named :
    (r : Request) (supers : List Text)
    → is_super r supers ≡ false
    → any (λ u. same_text u r.principal) supers ≡ false
not_named r [] h = refl
not_named r (u ∷ us) h = ground (arith, not_named r us)

module _ (parse_ip : IpParser) (r : Request) (supers : List Text) (s : AclManager) where
  -- With enforcement on and no exemption, denials come first and the default is to refuse.
  authorize_ordinary :
      is_super r supers ≡ false
      → authorize parse_ip r supers true s ≡ (
          not (any (applies parse_ip 2 r) (candidates r s))
          && any (applies parse_ip 3 r) (candidates r s))
  unfolding authorize
  authorize_ordinary h = elim (Bool-cases (is_empty s)) [
    | inl e ↦ rw (h, e, candidates_empty r s e) (not_named r supers h)
    | inr e ↦ rw (h, e) (ground arith)
  ]

-- A rule that applies and has no wildcard type has the type of the request, and the name too if its
-- bucket is a literal one.
module _ (parse_ip : IpParser) (b : AclBinding) (r : Request)
    (applied : matches_rule parse_ip b r ≡ true) (typed : b.resource_type ≢ 1) where
  applied_type : b.resource_type ≡ r.resource_type
  unfolding matches_rule
  applied_type = ground (arith, typed)

  applied_name :
      (key : ℕ × Text) → bucket_key b ≡ some key → key ≡ (r.resource_type, r.resource_name)
  unfolding matches_rule bucket_key pattern_of name_matches
  applied_name key e = ground (arith, typed, same_text_iff b.resource_name r.resource_name)

-- The rules that `authorize` looks at are stored ones.
candidate_stored :
    (r : Request) (s : AclManager) (b : AclBinding)
    → IsPlaced s
    → Occurs b (candidates r s)
    → contains b s ≡ true
unfolding candidates
candidate_stored r s b p m =
    elim (Occurs-of_append b (or_empty (Table.get (r.resource_type, r.resource_name) s.literal)) _
      m) [
        | inl l ↦ (contains_literal b (r.resource_type, r.resource_name) s p l).0
        | inr q ↦ (contains_patterned b r.resource_type s p q).0
      ]

-- And no stored rule of a concrete type that applies is missed.
stored_candidate :
    (parse_ip : IpParser) (r : Request) (s : AclManager) (b : AclBinding)
    → contains b s ≡ true
    → matches_rule parse_ip b r ≡ true
    → b.resource_type ≢ 1
    → Occurs b (candidates r s)
unfolding candidates
stored_candidate parse_ip r s b c m typed = go (bucket_key b) refl (Occurs-home b s c)
  where
    go :
        (k : Option (ℕ × Text))
        → bucket_key b ≡ k
        → Occurs b (or_empty (bucket_of k b s))
        → Occurs b (
            or_empty (Table.get (r.resource_type, r.resource_name) s.literal)
            ++ or_empty (Table.get r.resource_type s.patterned))
    go none e h = Occurs-append_right b _ _ (
        subst (λ t. Occurs b (or_empty (Table.get t s.patterned)))
          (applied_type parse_ip b r m typed) h)
    go (some key) e h = Occurs-append_left b _ _ (
        subst (λ i. Occurs b (or_empty (Table.get i s.literal)))
          (applied_name parse_ip b r m typed key e) h)

denial_first :
    {D A : Type 0} (x y : Bool)
    → (x ≡ true) ↔ D
    → (y ≡ true) ↔ A
    → ((not x && y) ≡ true) ↔ (¬ D × A)
denial_first true y d a = ((λ e. absurd (false≢true e)), (λ t. absurd (t.0 (d.0 refl))))
denial_first false true d a = ((λ e. ((λ x. false≢true (d.1 x)), a.0 refl)), (λ t. refl))
denial_first false false d a = ((λ e. absurd (false≢true e)), (λ t. a.1 t.1))

-- Some stored rule of this permission applies to the request.
abbrev pub SomeApplies : IpParser → ℕ → Request → AclManager → Type 0
SomeApplies parse_ip permission r s =
    (b : AclBinding) × (contains b s ≡ true) × (applies parse_ip permission r b ≡ true)

-- No stored rule has the wildcard resource type.
abbrev pub AllTyped : AclManager → Type 0
AllTyped s = (b : AclBinding) → contains b s ≡ true → b.resource_type ≢ 1

module _ (parse_ip : IpParser) (r : Request) (s : AclManager) (placed : IsPlaced s)
    (typed : AllTyped s) where
  any-candidates :
      (permission : ℕ)
      → (any (applies parse_ip permission r) (candidates r s) ≡ true)
        ↔ SomeApplies parse_ip permission r s
  any-candidates permission = (
    (λ h.
        let (b, m, e) = any-Occurs (applies parse_ip permission r) (candidates r s) h in
        (b, candidate_stored r s b placed m, e)),
    (λ t.
        let (b, c, e) = t in
        any_of_Occurs (applies parse_ip permission r) b (candidates r s)
          (stored_candidate parse_ip r s b c (ground arith) (typed b c)) e),
  )

  -- With enforcement on, for a principal that is not exempt, over a store whose rules are in their
  -- places and have concrete resource types: a request is allowed exactly if a stored allow rule
  -- applies to it and no stored deny rule does.
  pub authorize_iff :
      (supers : List Text)
      → is_super r supers ≡ false
      → (authorize parse_ip r supers true s ≡ true)
        ↔ (¬ (SomeApplies parse_ip 2 r s) × SomeApplies parse_ip 3 r s)
  authorize_iff supers h =
      rw (authorize_ordinary parse_ip r supers s h)
        (denial_first _ _ (any-candidates 2) (any-candidates 3))

wild_key : (b : AclBinding) (key : ℕ × Text) → bucket_key b ≡ some key → key.0 ≡ b.resource_type
unfolding bucket_key
wild_key b key e = ground arith

candidates-put_bucket :
    (r : Request) (s : AclManager) (b : AclBinding) (bucket : List AclBinding)
    (k : Option (ℕ × Text))
    → bucket_key b ≡ k
    → b.resource_type ≢ r.resource_type
    → candidates r (put_bucket k b bucket s) ≡ candidates r s
unfolding candidates
candidates-put_bucket r s b bucket none e differ =
    rw (get-insert b.resource_type r.resource_type bucket s.patterned) (ground arith)
candidates-put_bucket r s b bucket (some (t, name)) e differ =
    rw (get-insert (t, name) (r.resource_type, r.resource_name) bucket s.literal)
      (ground (arith, wild_key b (t, name) e))

candidates-add_acl :
    (r : Request) (s : AclManager) (b : AclBinding)
    → b.resource_type ≢ r.resource_type
    → candidates r (add_acl b s).1 ≡ candidates r s
unfolding add_acl
candidates-add_acl r s b differ =
    elim (Bool-cases (holds b (or_empty (bucket_of (bucket_key b) b s)))) [
      | inl e ↦ rw e (candidates-put_bucket r s b _ (bucket_key b) refl differ)
      | inr e ↦ rw e (candidates-put_bucket r s b _ (bucket_key b) refl differ)
    ]

exempt :
    (parse_ip : IpParser) (r : Request) (supers : List Text) (s : AclManager)
    → is_super r supers ≡ true
    → authorize parse_ip r supers true s ≡ true
unfolding authorize
exempt parse_ip r supers s h = rw h

-- A rule of the wildcard resource type, allow or deny, changes no decision on a request for a
-- concrete resource type: `authorize` looks into the buckets of the request's own type only.
pub any_type_ignored :
    (parse_ip : IpParser) (r : Request) (supers : List Text) (s : AclManager) (b : AclBinding)
    (enabled : Bool)
    → b.resource_type ≡ 1
    → r.resource_type ≢ 1
    → authorize parse_ip r supers enabled (add_acl b s).1 ≡ authorize parse_ip r supers enabled s
any_type_ignored parse_ip r supers s b false wild typed = unfold authorize in refl
any_type_ignored parse_ip r supers s b true wild typed = elim (Bool-cases (is_super r supers)) [
  | inl e ↦ rw (exempt parse_ip r supers s e, exempt parse_ip r supers (add_acl b s).1 e)
  | inr e ↦ rw (authorize_ordinary parse_ip r supers s e) (
      rw (authorize_ordinary parse_ip r supers (add_acl b s).1 e)
        (rw (candidates-add_acl r s b (ground arith))))
]
