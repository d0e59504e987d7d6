-- ===== src/Firewall/Laws.antt =====
-- Which ports an allow-list opens.
use nvoi.Base.{Bytes, bytes, Dict, Option, none, some, Bool, true, false, List, [], ◌∷◌}
use nvoi.Base.{
  ◌≡◌, refl, ap, subst, ◌∙◌, arith, if◌then◌else◌, ◌==◌, ==_iff, not, cut, split, trim_space,
  is_empty, insert, lookup, lookup-insert, has_key, HasDistinctKeys, lookup-no_key, Bool-cases,
  Option-cases, inl, inr, ◌&&◌, ◌||◌,
}
use nvoi.Firewall.{
  PortAllowList, valid_port, add_cidr, add_cidrs, add_group, add_groups, parse_args,
  parse_raw_rules,
}
use nvoi.Firewall.{
  any_malformed, resolve_firewall_args, write_all, merge_allow_lists, anywhere, base_rules,
  firewall_allow_list,
}
use nvoi.Firewall.Ports.{IsPort, valid_port-IsPort}
use nvoi.Validate.Checks.{pass}
use nvoi.Validate.Infra.{validate_tunnel_rule}

has_key-insert {ℓ} :
    {V : Type ℓ} (k j : Bytes) (v : V) (m : Dict V)
    → has_key j (insert k v m) ≡ (k == j || has_key j m)
unfolding has_key insert
has_key-insert k j v [] = refl
has_key-insert k j v ((i, w) ∷ m) =
    ground (arith, has_key-insert k j v m, ==_iff k j, ==_iff i k, ==_iff i j)

insert-HasDistinctKeys {ℓ} :
    {V : Type ℓ} (k : Bytes) (v : V) (m : Dict V)
    → HasDistinctKeys m
    → HasDistinctKeys (insert k v m)
unfolding insert has_key
insert-HasDistinctKeys k v [] h = (refl, tt)
insert-HasDistinctKeys k v ((i, w) ∷ m) (fresh, h) = elim (Bool-cases (i == k)) [
  | inl same ↦ rw same (fresh, h)
  | inr other ↦ rw other (
    ground (arith, has_key-insert k i v m, ==_iff k i, ==_iff i k),
    insert-HasDistinctKeys k v m h,
  )
]

-- What every parsed list is: its keys are distinct texts, and each is a port.
pub record IsPortList (m : PortAllowList) : Type 0 where
  pub distinct : HasDistinctKeys m
  pub ports : (p : Bytes) → has_key p m ≡ true → IsPort p

insert-IsPortList :
    (k : Bytes) (v : List Bytes) (m : PortAllowList)
    → IsPort k
    → IsPortList m
    → IsPortList (insert k v m)
insert-IsPortList k v m valid h = record {
  distinct = insert-HasDistinctKeys k v m h.distinct;
  ports = λ p e. elim (Bool-cases (k == p)) [
    | inl same ↦ subst IsPort ((==_iff k p).0 same) valid
    | inr other ↦ h.ports p (ground (arith, has_key-insert k p v m, e, other))
  ];
}

add_cidr-IsPortList :
    (port cidr : Bytes) (m : PortAllowList)
    → IsPort port
    → IsPortList m
    → IsPortList (add_cidr port cidr m)
unfolding add_cidr
add_cidr-IsPortList port cidr m valid h = elim (Bool-cases (is_empty (trim_space cidr))) [
  | inl skip ↦ rw skip h
  | inr some_cidr ↦ rw some_cidr (insert-IsPortList port _ m valid h)
]

add_cidrs-IsPortList :
    (port : Bytes) (cidrs : List Bytes) (m : PortAllowList)
    → IsPort port
    → IsPortList m
    → IsPortList (add_cidrs port cidrs m)
unfolding add_cidrs
add_cidrs-IsPortList port [] m valid h = h
add_cidrs-IsPortList port (c ∷ cidrs) m valid h =
    add_cidrs-IsPortList port cidrs _ valid (add_cidr-IsPortList port c m valid h)

add_group-IsPortList :
    (group : Bytes) (m : PortAllowList) → IsPortList m → IsPortList (add_group group m)
unfolding add_group
add_group-IsPortList group m h = elim (Option-cases (cut b':' (trim_space group))) [
  | inl missing ↦ rw (missing, add_group) h
  | inr (r, found) ↦
      rw (found, add_group)
        (elim (Bool-cases (is_empty r.0 || not (valid_port r.0))) [
          | inl skip ↦ rw skip h
          | inr valid ↦
              rw valid (
                add_cidrs-IsPortList r.0 (split b',' r.1) m (valid_port-IsPort r.0 (ground arith))
                  h)
        ])
]

add_groups-IsPortList :
    (groups : List Bytes) (m : PortAllowList) → IsPortList m → IsPortList (add_groups groups m)
unfolding add_groups
add_groups-IsPortList [] m h = h
add_groups-IsPortList (g ∷ groups) m h = add_groups-IsPortList groups _ (add_group-IsPortList g m h)

parse_args-IsPortList :
    (args : List Bytes) (m : PortAllowList) → IsPortList m → IsPortList (parse_args args m)
unfolding parse_args
parse_args-IsPortList [] m h = h
parse_args-IsPortList (a ∷ args) m h =
    parse_args-IsPortList args _ (add_groups-IsPortList (split b';' a) m h)

-- Whatever the rules, the keys of the parsed list are distinct texts, and each is a number from 1 to
-- 65535 in decimal digits, with a plus sign or without, so that one port may have several keys.
pub parse_raw_rules-IsPortList : (args : List Bytes) → IsPortList (parse_raw_rules args)
unfolding parse_raw_rules has_key
parse_raw_rules-IsPortList args =
    parse_args-IsPortList args [] (record { distinct = tt; ports = λ p e. cc })

-- An override, else the base.
abbrev pub or_else {ℓ} : {A : Type ℓ} → Option A → Option A → Option A
or_else (some a) b = some a
or_else none b = b

lookup-write_all :
    (p : Bytes) (overrides m : PortAllowList)
    → HasDistinctKeys overrides
    → lookup p (write_all overrides m) ≡ or_else (lookup p overrides) (lookup p m)
unfolding write_all lookup
lookup-write_all p [] m h = refl
lookup-write_all p ((k, v) ∷ o) m (fresh, h) = ground (
  arith,
  lookup-write_all p o (insert k v m) h,
  lookup-insert k p v m,
  ==_iff k p,
  lookup-no_key k o fresh,
)

-- For lists with distinct keys, merging keeps the override for a port that both have, and every
-- other entry of both.
pub lookup-merge_allow_lists :
    (p : Bytes) (base overrides : PortAllowList)
    → HasDistinctKeys base
    → HasDistinctKeys overrides
    → lookup p (merge_allow_lists base overrides) ≡ or_else (lookup p overrides) (lookup p base)
unfolding merge_allow_lists lookup
lookup-merge_allow_lists p base overrides h k =
    ground (arith, lookup-write_all p overrides (write_all base []) k, lookup-write_all p base [] h)

base_rules-HasDistinctKeys : (d : Bool) (tunnel : Bytes) → HasDistinctKeys (base_rules d tunnel)
unfolding base_rules has_key ◌==◌
base_rules-HasDistinctKeys true [] = (refl, (refl, tt))
base_rules-HasDistinctKeys true (c ∷ t) = tt
base_rules-HasDistinctKeys false [] = tt
base_rules-HasDistinctKeys false (c ∷ t) = tt

lookup-base_rules :
    (p : Bytes) (d : Bool) (tunnel : Bytes)
    → lookup p (base_rules d tunnel) ≡ (
        if d && is_empty tunnel && (bytes "80" == p || bytes "443" == p)
        then some anywhere
        else none)
unfolding base_rules lookup
lookup-base_rules p d tunnel = ground arith

-- If no rule is malformed, the master opens to each port the sources of the user's rules; a port
-- without a user's rule is open only in Caddy mode (a domain and no tunnel), and then only 80 and
-- 443 are, to everybody.
pub firewall_allow_list_lem :
    (some_domain : Bool) (tunnel : Bytes) (rules : List Bytes)
    → any_malformed rules ≡ false
    → (m : PortAllowList) × (firewall_allow_list some_domain tunnel rules ≡ some m)
      × ((p : Bytes)
          → lookup p m
            ≡ or_else (lookup p (parse_raw_rules rules)) (
                if some_domain && is_empty tunnel && (bytes "80" == p || bytes "443" == p)
                then some anywhere
                else none))
unfolding firewall_allow_list resolve_firewall_args
firewall_allow_list_lem d tunnel rules wf = (
  merge_allow_lists (base_rules d tunnel) (parse_raw_rules rules),
  ground arith,
  λ p.
      lookup-merge_allow_lists p (base_rules d tunnel) (parse_raw_rules rules)
        (base_rules-HasDistinctKeys d tunnel) ((parse_raw_rules-IsPortList rules).distinct)
      ∙ ap (or_else (lookup p (parse_raw_rules rules))) (lookup-base_rules p d tunnel),
)

-- A space in front of a rule hides it from the check that keeps 80 and 443 closed in tunnel mode,
-- and changes nothing of what the rule opens.
leading_space :
    (rule : Bytes) (m : PortAllowList)
    → (validate_tunnel_rule (b' ' ∷ rule) ≡ pass) × (add_group (b' ' ∷ rule) m ≡ add_group rule m)
unfolding validate_tunnel_rule cut ◌==◌ add_group trim_space
leading_space rule m = (ground arith, refl)
