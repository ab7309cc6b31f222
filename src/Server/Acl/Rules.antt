-- ===== src/Server/Acl/Rules.antt =====
-- server/acl.rs: one rule, its bucket, and when it applies to a request.
use bifrox.Prelude.{
  ℕ, ◌≡◌, ◌↔◌, Bool, true, false, not, ◌&&◌, ◌||◌, Option, none, some, [], ◌∷◌, ◌==◌, if◌then◌else◌,
  any, arith,
}
use bifrox.Prelude.Text.{Text, same_text, same_text_iff, starts_with}
use bifrox.Server.Acl.Cidr.{IpAddr, IpParser, cidr_contains}
use bifrox.Server.Acl.Glob.{glob_match}

pub record AclBinding : Type 0 where
  pub resource_type : ℕ
  pub resource_name : Text
  pub pattern_type : ℕ
  pub principal : Text
  pub host : Text
  pub operation : ℕ
  pub permission_type : ℕ

-- The derived `PartialEq`.
unfoldable pub same_binding : AclBinding → AclBinding → Bool
same_binding a b =
    a.resource_type == b.resource_type
    && same_text a.resource_name b.resource_name
    && a.pattern_type == b.pattern_type
    && same_text a.principal b.principal
    && same_text a.host b.host
    && a.operation == b.operation
    && a.permission_type == b.permission_type

pub same_binding_iff : (a b : AclBinding) → (same_binding a b ≡ true) ↔ (a ≡ b)
unfolding same_binding
same_binding_iff a b = ground (
  arith,
  same_text_iff a.resource_name b.resource_name,
  same_text_iff a.principal b.principal,
  same_text_iff a.host b.host,
)

pub data ResourcePatternType : Type 0 where
  unknown any_pattern match_pattern literal_pattern prefixed : ResourcePatternType

-- `impl From<u8> for ResourcePatternType`.
unfoldable pub pattern_of : ℕ → ResourcePatternType
pattern_of v =
    if v == 1
    then any_pattern
    else if v == 2
    then match_pattern
    else if v == 3
    then literal_pattern
    else if v == 4
    then prefixed
    else unknown

abbrev pub star : Text
star = b'*' ∷ []

unfoldable pub bucket_key : AclBinding → Option (ℕ × Text)
bucket_key b =
    if b.pattern_type == 3 && not (same_text b.resource_name star)
    then some (b.resource_type, b.resource_name)
    else none

-- What a request asks for.
pub record Request : Type 0 where
  pub principal : Text
  pub host : Text
  pub operation : ℕ
  pub resource_type : ℕ
  pub resource_name : Text

abbrev pub in_range : IpParser → Text → Option IpAddr → Bool
in_range parse_ip cidr none = false
in_range parse_ip cidr (some ip) = cidr_contains parse_ip cidr ip

unfoldable pub host_matches : IpParser → Text → Text → Bool
host_matches parse_ip rule_host host =
    same_text rule_host star
    || same_text rule_host host
    || (any (λ c. c == b'/') rule_host && in_range parse_ip rule_host (parse_ip host))

-- The result of `glob_match`, where lack of fuel counts as no match.
abbrev pub is_match : Option Bool → Bool
is_match (some b) = b
is_match none = false

unfoldable pub name_matches : ResourcePatternType → Text → Text → Bool
name_matches prefixed rule_name name = same_text rule_name star || starts_with name rule_name
name_matches match_pattern rule_name name =
    same_text rule_name star || is_match (glob_match rule_name name)
name_matches any_pattern rule_name name =
    same_text rule_name star || is_match (glob_match rule_name name)
name_matches _ rule_name name = same_text rule_name star || same_text rule_name name

unfoldable pub matches_rule : IpParser → AclBinding → Request → Bool
matches_rule parse_ip rule r =
    if not (rule.resource_type == 1) && not (rule.resource_type == r.resource_type)
    then false
    else if not (rule.operation == 1)
        && not (rule.operation == 2)
        && not (rule.operation == r.operation)
    then false
    else if not (same_text rule.principal star) && not (same_text rule.principal r.principal)
    then false
    else if not (host_matches parse_ip rule.host r.host)
    then false
    else name_matches (pattern_of rule.pattern_type) rule.resource_name r.resource_name
