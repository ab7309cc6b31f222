-- ===== src/Server/Acl/Tests.antt =====
-- Runs of the access control lists, and their theorems at concrete inputs.
use bifrox.Prelude.{
  ◌≡◌, ◌↔◌, refl, true, false, not, ◌&&◌, ◌||◌, none, some, [], arith, if◌then◌else◌,
}
use bifrox.Prelude.Text.{codes, same_text}
use bifrox.Prelude.Table.{get, insert}
use bifrox.Server.Acl.Glob.Matching.{matches, glob_match-matches}
use bifrox.Server.Acl.Cidr.{IpParser, v4, cidr_contains, split_once, parse_u8, ipv4_cidr_contains}
use bifrox.Server.Acl.Glob.{glob_match}
use bifrox.Server.Acl.Rules.{
  AclBinding, Request, same_binding, same_binding_iff, bucket_key, pattern_of, host_matches,
  name_matches, matches_rule,
}
use bifrox.Server.Acl.{
  AclManager, empty, add_acl, remove_acl, contains, is_empty, candidates, authorize,
}
use bifrox.Server.Acl.Buckets.{contains-add_acl, contains-remove_acl}
use bifrox.Server.Acl.Placement.{IsPlaced, empty-IsPlaced, add_acl-IsPlaced}
use bifrox.Server.Acl.Decision.{AllTyped, SomeApplies, authorize_iff, any_type_ignored}

-- A parser that knows two addresses.
abbrev two_addresses : IpParser
unfolding same_text
two_addresses t =
    if same_text t (codes "10.0.0.0")
    then some (v4 0x0a000000)
    else if same_text t (codes "10.1.2.3")
    then some (v4 0x0a010203)
    else none

in_private_range : cidr_contains two_addresses (codes "10.0.0.0/8") (v4 0x0a010203) ≡ true
unfolding cidr_contains split_once parse_u8 ipv4_cidr_contains same_text
in_private_range = refl

glob_middle : glob_match (codes "orders-*-eu") (codes "orders-42-a-eu") ≡ some true
unfolding glob_match
glob_middle = refl

abbrev allow_orders : AclBinding
allow_orders = record {
  resource_type = 2;
  resource_name = codes "orders";
  pattern_type = 3;
  principal = codes "User:alice";
  host = codes "*";
  operation = 3;
  permission_type = 3;
}

-- Denies everything to everybody, on every resource type.
abbrev deny_any : AclBinding
deny_any = record {
  resource_type = 1;
  resource_name = codes "*";
  pattern_type = 3;
  principal = codes "*";
  host = codes "*";
  operation = 2;
  permission_type = 2;
}

abbrev read_orders : Request
read_orders = record {
  principal = codes "User:alice";
  host = codes "10.1.2.3";
  operation = 3;
  resource_type = 2;
  resource_name = codes "orders";
}

abbrev one_rule : AclManager
one_rule = (add_acl allow_orders empty).1

allowed : authorize two_addresses read_orders [] true one_rule ≡ true
unfolding authorize is_empty candidates add_acl bucket_key get insert matches_rule host_matches
    name_matches pattern_of same_text same_binding
allowed = refl

contains-add_acl_example :
    (contains deny_any (add_acl allow_orders empty).1
      ≡ (same_binding allow_orders deny_any || contains deny_any empty))
    × ((add_acl allow_orders empty).0 ≡ not (contains allow_orders empty))
contains-add_acl_example = contains-add_acl allow_orders deny_any empty

contains-remove_acl_example :
    (contains allow_orders (remove_acl allow_orders one_rule).1
      ≡ (not (same_binding allow_orders allow_orders) && contains allow_orders one_rule))
    × ((remove_acl allow_orders one_rule).0 ≡ contains allow_orders one_rule)
contains-remove_acl_example = contains-remove_acl allow_orders allow_orders one_rule

one_rule-IsPlaced : IsPlaced one_rule
one_rule-IsPlaced = add_acl-IsPlaced allow_orders empty empty-IsPlaced

nothing_in_empty : (b : AclBinding) → contains b empty ≡ false
unfolding contains get bucket_key
nothing_in_empty b = ground arith

one_rule-AllTyped : AllTyped one_rule
one_rule-AllTyped b c = ground (
  arith,
  (contains-add_acl allow_orders b empty).0,
  nothing_in_empty b,
  same_binding_iff allow_orders b,
)

authorize_iff_example : (authorize two_addresses read_orders [] true one_rule ≡ true) ↔ (
    ¬ (SomeApplies two_addresses 2 read_orders one_rule)
    × SomeApplies two_addresses 3 read_orders one_rule)
authorize_iff_example =
    authorize_iff two_addresses read_orders one_rule one_rule-IsPlaced one_rule-AllTyped [] refl

any_type_ignored_example :
    authorize two_addresses read_orders [] true (add_acl deny_any one_rule).1
    ≡ authorize two_addresses read_orders [] true one_rule
any_type_ignored_example =
    any_type_ignored two_addresses read_orders [] one_rule deny_any true refl
      (λ e. absurd (omega arith))

glob_match-matches_example :
    glob_match (codes "a*b*c") (codes "aXbYbc") ≡ some (matches (codes "a*b*c") (codes "aXbYbc"))
glob_match-matches_example = glob_match-matches (codes "a*b*c") (codes "aXbYbc")

glob_backtracks : glob_match (codes "a*b*c") (codes "aXbYbc") ≡ some true
unfolding glob_match
glob_backtracks = refl
