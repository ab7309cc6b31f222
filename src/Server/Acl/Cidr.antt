-- ===== src/Server/Acl/Cidr.antt =====
-- server/listener.rs: `cidr_contains`.
use Prim.Native.Nat.{bit_and}
use bifrox.Prelude.{
  ℕ, ◌+◌, ◌-◌, ◌*◌, ◌%◌, ◌^◌, Bool, true, false, Option, none, some, [], ◌∷◌, ltb, leb, ◌==◌, ◌&&◌,
  if◌then◌else◌,
}
use bifrox.Prelude.Text.{Text}

-- An IPv4 address as its u32, an IPv6 address as its u128.
pub data IpAddr : Type 0 where
  v4 : ℕ → IpAddr
  v6 : ℕ → IpAddr

-- The standard library's `str::parse::<IpAddr>`.
abbrev pub IpParser : Type 0
IpParser = Text → Option IpAddr

abbrev pub prepend : ℕ → Option (Text × Text) → Option (Text × Text)
prepend c none = none
prepend c (some (front, back)) = some (c ∷ front, back)

-- The standard library's `split_once`: the text before and after the first `sep`.
unfoldable pub split_once : ℕ → Text → Option (Text × Text)
split_once sep [] = none
split_once sep (c ∷ s) =
    let rest = split_once sep s in if c == sep then some ([], s) else prepend c rest

-- The standard library's `str::parse::<u8>`: an optional `+`, then digits, and no value above 255.
unfoldable pub parse_digits : ℕ → Text → Option ℕ
parse_digits n [] = some n
parse_digits n (c ∷ s) =
    let n' = n * 10 + (c - b'0') in
    if leb b'0' c && leb c b'9' && leb n' 255 then parse_digits n' s else none

unfoldable pub parse_u8 : Text → Option ℕ
unfolding parse_digits
parse_u8 [] = none
parse_u8 (c ∷ []) = if c == b'+' then none else parse_digits 0 (c ∷ [])
parse_u8 (c ∷ d ∷ s) = if c == b'+' then parse_digits 0 (d ∷ s) else parse_digits 0 (c ∷ d ∷ s)

-- `MAX << (width - prefix)` on words of that width.
abbrev pub mask : ℕ → ℕ → ℕ
mask width prefix = (2 ^ width - 1) * 2 ^ (width - prefix) % 2 ^ width

unfoldable pub ipv4_cidr_contains : ℕ → ℕ → ℕ → Bool
ipv4_cidr_contains network prefix peer =
    if ltb 32 prefix
    then false
    else if prefix == 0
    then true
    else bit_and network (mask 32 prefix) == bit_and peer (mask 32 prefix)

unfoldable pub ipv6_cidr_contains : ℕ → ℕ → ℕ → Bool
ipv6_cidr_contains network prefix peer =
    if ltb 128 prefix
    then false
    else if prefix == 0
    then true
    else bit_and network (mask 128 prefix) == bit_and peer (mask 128 prefix)

abbrev pub same_family : IpAddr → ℕ → IpAddr → Bool
same_family (v4 network) prefix (v4 peer) = ipv4_cidr_contains network prefix peer
same_family (v6 network) prefix (v6 peer) = ipv6_cidr_contains network prefix peer
same_family _ prefix _ = false

abbrev pub parsed_contains : Option IpAddr → Option ℕ → IpAddr → Bool
parsed_contains (some network) (some prefix) peer = same_family network prefix peer
parsed_contains _ _ peer = false

unfoldable pub cidr_contains : IpParser → Text → IpAddr → Bool
cidr_contains parse_ip cidr peer = elim (split_once b'/' cidr) [
  | none ↦ false
  | some (net, prefix) ↦ parsed_contains (parse_ip net) (parse_u8 prefix) peer
]
