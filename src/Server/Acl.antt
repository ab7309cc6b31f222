-- ===== src/Server/Acl.antt =====
-- server/acl.rs and the CIDR test of server/listener.rs: access control lists.
-- A `DashMap` is a table, and a `&str` the list of its code points. Parsing an IP address is the
-- standard library's, and a parameter: any function from text to an address, or none.
pub mod Cidr
pub mod Glob
pub mod Rules
pub mod Buckets
pub mod Placement
pub mod Decision
mod Tests
use bifrox.Prelude.{
  ℕ, ◌≡◌, Bool, true, false, not, ◌&&◌, ◌||◌, Option, none, some, List, [], ◌∷◌, ◌++◌, ◌==◌,
  if◌then◌else◌, any, retain, length, nat_key, pair_key,
}
use bifrox.Prelude.Text.{Text, same_text, starts_with, text_key}
use bifrox.Prelude.Table.{Table, get, insert}
use bifrox.Server.Acl.Cidr.{IpParser}
use bifrox.Server.Acl.Rules.{AclBinding, Request, star, same_binding, bucket_key, matches_rule}

pub record AclManager : Type 0 where
  pub literal : Table (ℕ × Text) (List AclBinding)
  pub patterned : Table ℕ (List AclBinding)

abbrev pub empty : AclManager
empty = record { literal = []; patterned = [] }

-- `get(..).map(clone).unwrap_or_default()` and `entry(..).or_default()`.
abbrev pub or_empty : Option (List AclBinding) → List AclBinding
or_empty none = []
or_empty (some bucket) = bucket

-- `Vec::contains`.
abbrev pub holds : AclBinding → List AclBinding → Bool
holds binding = any (λ b. same_binding b binding)

abbrev pub bucket_of : Option (ℕ × Text) → AclBinding → AclManager → Option (List AclBinding)
bucket_of (some key) binding s = get key s.literal
bucket_of none binding s = get binding.resource_type s.patterned

abbrev pub put_bucket : Option (ℕ × Text) → AclBinding → List AclBinding → AclManager → AclManager
put_bucket (some key) binding bucket s = record s { literal = insert key bucket s.literal }
put_bucket none binding bucket s = record s {
  patterned = insert binding.resource_type bucket s.patterned;
}

unfoldable pub add_acl : AclBinding → AclManager → Bool × AclManager
add_acl binding s =
    let key = bucket_key binding in
    let bucket = or_empty (bucket_of key binding s) in
    if holds binding bucket
    then (false, put_bucket key binding bucket s)
    else (true, put_bucket key binding (bucket ++ (binding ∷ [])) s)

abbrev pub removed_from : Option (List AclBinding) → AclBinding → AclManager → Bool × AclManager
removed_from none binding s = (false, s)
removed_from (some bucket) binding s =
    let kept = retain (λ b. not (same_binding b binding)) bucket in
    (not (length kept == length bucket), put_bucket (bucket_key binding) binding kept s)

unfoldable pub remove_acl : AclBinding → AclManager → Bool × AclManager
remove_acl binding s = removed_from (bucket_of (bucket_key binding) binding s) binding s

unfoldable pub contains : AclBinding → AclManager → Bool
contains binding s = holds binding (or_empty (bucket_of (bucket_key binding) binding s))

abbrev pub all_empty : {K : Type 0} → Table K (List AclBinding) → Bool
all_empty [] = true
all_empty ((k, []) ∷ m) = all_empty m
all_empty ((k, b ∷ bs) ∷ m) = false

unfoldable pub is_empty : AclManager → Bool
is_empty s = all_empty s.literal && all_empty s.patterned

-- `for_each_binding`. The code's order within a map is not determined.
abbrev pub all_bindings : {K : Type 0} → Table K (List AclBinding) → List AclBinding
all_bindings [] = []
all_bindings ((k, bucket) ∷ m) = bucket ++ all_bindings m

abbrev pub wild_number : ℕ → ℕ → Bool
wild_number asked stored = asked == 1 || asked == 0 || asked == stored

abbrev pub wild_text : Text → Text → Bool
wild_text asked stored = same_text asked [] || same_text asked star || same_text asked stored

unfoldable pub matches_filter : AclBinding → AclBinding → Bool
matches_filter filter b =
    wild_number filter.resource_type b.resource_type
    && wild_text filter.resource_name b.resource_name
    && wild_text filter.principal b.principal
    && wild_text filter.host b.host
    && wild_number filter.operation b.operation
    && wild_number filter.permission_type b.permission_type

unfoldable pub list_acls : AclBinding → AclManager → List AclBinding
list_acls filter s =
    retain (matches_filter filter) (all_bindings s.literal ++ all_bindings s.patterned)

-- The rules that `authorize` looks at.
unfoldable pub candidates : Request → AclManager → List AclBinding
candidates r s =
    or_empty (get (r.resource_type, r.resource_name) s.literal)
    ++ or_empty (get r.resource_type s.patterned)

-- A rule of the given permission type that applies to the request.
abbrev pub applies : IpParser → ℕ → Request → AclBinding → Bool
applies parse_ip permission r b = b.permission_type == permission && matches_rule parse_ip b r

unfoldable pub authorize : IpParser → Request → List Text → Bool → AclManager → Bool
authorize parse_ip r super_users acls_enabled s =
    if not acls_enabled
    then true
    else if any (λ u. same_text u r.principal || same_text u star) super_users
    then true
    else if is_empty s
    then any (λ u. same_text u r.principal) super_users
    else if any (applies parse_ip 2 r) (candidates r s)
    then false
    else any (applies parse_ip 3 r) (candidates r s)
