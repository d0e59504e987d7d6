-- ===== src/Firewall.antt =====
-- pkg/provider/allowlist.go: firewall rules and the ports that a master opens.
pub mod Ports
pub mod Laws
use nvoi.Base.{
  ℕ, zero, suc, ◌+◌, ◌*◌, ◌-◌, Bytes, bytes, Dict, Option, none, some, Bool, true, false, List, [],
  ◌∷◌, ◌++◌,
}
use nvoi.Base.{
  if◌then◌else◌, ◌==◌, nat_eq, leb, ltb, ◌&&◌, ◌||◌, not, cut, split, trim_space, has_byte,
  is_empty, is_digit, insert, lookup, append_all, map, all,
}

-- A PortAllowList: the sources that may reach a port. A nil map is the empty one, which has the
-- same keys.
abbrev pub PortAllowList : Type 0
PortAllowList = Dict (List Bytes)

abbrev pub internal_ports : List Bytes
internal_ports = bytes "6443" ∷ bytes "10250" ∷ bytes "8472" ∷ bytes "5000" ∷ []

unfoldable pub digits_value : ℕ → Bytes → ℕ
digits_value acc [] = acc
digits_value acc (c ∷ s) = digits_value (acc * 10 + (c - 48)) s

-- strconv.Atoi, for the test `1 <= n && n <= 65535`: an optional sign and digits. A text that is
-- no number or has a minus sign gives `none`, which the test rejects like a number out of range.
unfoldable pub atoi : Bytes → Option ℕ
unfolding digits_value
atoi [] = none
atoi (c ∷ s) =
    let unsigned = if nat_eq c b'+' then s else c ∷ s in
    if not (is_empty unsigned) && all is_digit unsigned
    then some (digits_value 0 unsigned)
    else none

unfoldable pub valid_port : Bytes → Bool
unfolding atoi
valid_port port = elim (atoi port) [ none ↦ false | some n ↦ leb 1 n && leb n 65535 ]

abbrev pub or_nil : Option (List Bytes) → List Bytes
or_nil none = []
or_nil (some l) = l

-- `result[port] = append(result[port], cidr)` for one source; an empty one is skipped, and one
-- with no mask is a single address.
unfoldable pub add_cidr : (port cidr : Bytes) → PortAllowList → PortAllowList
unfolding trim_space
add_cidr port cidr result =
    let c = trim_space cidr in
    if is_empty c
    then result
    else insert port
        (or_nil (lookup port result) ++ (if has_byte b'/' c then c else c ++ bytes "/32") ∷ [])
        result

unfoldable pub add_cidrs : (port : Bytes) → List Bytes → PortAllowList → PortAllowList
unfolding add_cidr
add_cidrs port [] result = result
add_cidrs port (cidr ∷ cidrs) result = add_cidrs port cidrs (add_cidr port cidr result)

-- One group between semicolons.
unfoldable pub add_group : Bytes → PortAllowList → PortAllowList
unfolding add_cidrs valid_port trim_space
add_group group result = elim (cut b':' (trim_space group)) [
  | none ↦ result
  | some r ↦
      if is_empty r.0 || not (valid_port r.0) then result else add_cidrs r.0 (split b',' r.1) result
]

unfoldable pub add_groups : List Bytes → PortAllowList → PortAllowList
unfolding add_group
add_groups [] result = result
add_groups (group ∷ groups) result = add_groups groups (add_group group result)

unfoldable pub parse_args : List Bytes → PortAllowList → PortAllowList
unfolding add_groups
parse_args [] result = result
parse_args (arg ∷ args) result = parse_args args (add_groups (split b';' arg) result)

unfoldable pub parse_raw_rules : List Bytes → PortAllowList
unfolding parse_args
parse_raw_rules args = parse_args args []

-- A rule that is not empty and has no colon is an error, which is `none`.
abbrev pub is_malformed : Bytes → Bool
is_malformed arg = not (is_empty (trim_space arg)) && not (has_byte b':' (trim_space arg))

unfoldable pub any_malformed : List Bytes → Bool
unfolding trim_space
any_malformed [] = false
any_malformed (arg ∷ args) = is_malformed arg || any_malformed args

unfoldable pub resolve_firewall_args : List Bytes → Option PortAllowList
unfolding any_malformed parse_raw_rules
resolve_firewall_args args = if any_malformed args then none else some (parse_raw_rules args)

-- Every entry of the second list is written over the first.
unfoldable pub write_all : (overrides result : PortAllowList) → PortAllowList
write_all [] result = result
write_all ((port, ips) ∷ overrides) result = write_all overrides (insert port ips result)

unfoldable pub merge_allow_lists : (base overrides : PortAllowList) → PortAllowList
unfolding write_all
merge_allow_lists base overrides = write_all overrides (write_all base [])

abbrev pub anywhere : List Bytes
anywhere = bytes "0.0.0.0/0" ∷ bytes "::/0" ∷ []

-- What FirewallAllowList derives: 80 and 443 in Caddy mode.
unfoldable pub base_rules : (some_domain : Bool) → (tunnel : Bytes) → PortAllowList
base_rules some_domain tunnel =
    if some_domain && is_empty tunnel
    then (bytes "80", anywhere) ∷ (bytes "443", anywhere) ∷ []
    else []

unfoldable pub firewall_allow_list :
    (some_domain : Bool) (tunnel : Bytes) (rules : List Bytes) → Option PortAllowList
unfolding base_rules resolve_firewall_args merge_allow_lists
firewall_allow_list some_domain tunnel rules = elim (resolve_firewall_args rules) [
  | none ↦ none
  | some user_rules ↦ some (merge_allow_lists (base_rules some_domain tunnel) user_rules)
]
