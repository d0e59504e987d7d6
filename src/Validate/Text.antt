-- ===== src/Validate/Text.antt =====
-- The text functions of internal/reconcile/validate.go and ParseSecretRef of pkg/kube/generate.go.
use nvoi.Base.{ℕ, ◌+◌, Bytes, bytes, Dict, Option, none, some, Bool, true, false, List, [], ◌∷◌}
use nvoi.Base.{
  if◌then◌else◌, ◌==◌, nat_eq, ◌&&◌, ◌||◌, not, cut, cut_last, split, is_empty, has_byte,
}
use nvoi.Base.{all, is_digit, is_lower, is_upper, is_space, has_key, contains, lookup}
use nvoi.Config.{ServiceDef, CronDef, VolumeDef}

-- one character of a registry host's label, not at its ends
abbrev pub is_host_char : ℕ → Bool
is_host_char c = is_lower c || is_upper c || is_digit c || nat_eq c b'-'

abbrev pub is_host_end : ℕ → Bool
is_host_end c = is_lower c || is_upper c || is_digit c

unfoldable pub host_label_rest : Bytes → Bool
host_label_rest [] = true
host_label_rest (c ∷ []) = is_host_end c
host_label_rest (c ∷ d ∷ s) = is_host_char c && host_label_rest (d ∷ s)

-- Letters, digits and hyphens, with no hyphen at either end.
unfoldable pub valid_host_label : Bytes → Bool
unfolding host_label_rest
valid_host_label [] = false
valid_host_label (c ∷ s) = is_host_end c && host_label_rest s

unfoldable pub valid_host_name : Bytes → Bool
unfolding valid_host_label
valid_host_name host = not (is_empty host) && all valid_host_label (split b'.' host)

-- A host with an optional `:port` of digits.
unfoldable pub valid_registry_host : Bytes → Bool
unfolding valid_host_name
valid_registry_host host = elim (cut_last b':' host) [
  | none ↦ valid_host_name host
  | some r ↦ not (is_empty r.1) && all is_digit r.1 && valid_host_name r.0
]

-- What stands before the first slash, if it holds a dot or a colon or is `localhost`.
unfoldable pub host_of_first : Bytes → Bytes
host_of_first first =
    if first == bytes "localhost" || has_byte b'.' first || has_byte b':' first then first else []

unfoldable pub image_registry_host : Bytes → Bytes
unfolding host_of_first
image_registry_host image = elim (cut b'/' image) [ none ↦ [] | some r ↦ host_of_first r.0 ]

-- ParseSecretRef: the environment name and the key.
unfoldable pub parse_secret_ref : Bytes → Bytes × Bytes
parse_secret_ref ref = elim (cut b'=' ref) [ none ↦ (ref, ref) | some r ↦ r ]

-- parseDatabaseRef: the environment name, empty if none is given, and the database.
unfoldable pub parse_database_ref : Bytes → Bytes × Bytes
parse_database_ref ref = elim (cut b'=' ref) [ none ↦ ([], ref) | some r ↦ r ]

-- len(strings.Fields(s)); `inside` tells whether the character before was part of a field
unfoldable pub count_fields : Bool → Bytes → ℕ
count_fields inside [] = 0
count_fields inside (c ∷ s) =
    if is_space c then count_fields false s else (if inside then 0 else 1) + count_fields true s

unfoldable pub valid_cron_expr : Bytes → Bool
unfolding count_fields
valid_cron_expr s = nat_eq (count_fields false s) 5

abbrev pub database_engine_is_self_hosted : Bytes → Bool
database_engine_is_self_hosted engine = engine == bytes "postgres" || engine == bytes "mysql"

abbrev pub database_engine_is_saas : Bytes → Bool
database_engine_is_saas engine = engine == bytes "neon" || engine == bytes "planetscale"

-- `!HasPrefix(source, "/") && !HasPrefix(source, ".")`: a volume's name, no path
abbrev pub is_volume_name : Bytes → Bool
is_volume_name [] = true
is_volume_name (c ∷ s) = not (nat_eq c b'/') && not (nat_eq c b'.')

-- The volume that a mount names, if it names one that is defined.
unfoldable pub named_volume : Dict VolumeDef → Bytes → Option VolumeDef
named_volume volumes mount = elim (cut b':' mount) [
  | none ↦ none
  | some r ↦ if is_volume_name r.0 then lookup r.0 volumes else none
]

unfoldable pub has_named_volume : Dict VolumeDef → List Bytes → Bool
has_named_volume volumes [] = false
has_named_volume volumes (mount ∷ mounts) = elim (cut b':' mount) [
  | none ↦ has_named_volume volumes mounts
  | some r ↦ (is_volume_name r.0 && has_key r.0 volumes) || has_named_volume volumes mounts
]

-- servicesSharingServer and cronsSharingServer: the workloads that name `server` in one of their
-- two fields.
unfoldable pub services_sharing_server : Dict ServiceDef → Bytes → List Bytes
services_sharing_server [] server = []
services_sharing_server ((name, svc) ∷ rest) server =
    if svc.server == server || contains server svc.servers
    then name ∷ services_sharing_server rest server
    else services_sharing_server rest server

unfoldable pub crons_sharing_server : Dict CronDef → Bytes → List Bytes
crons_sharing_server [] server = []
crons_sharing_server ((name, cron) ∷ rest) server =
    if cron.server == server || contains server cron.servers
    then name ∷ crons_sharing_server rest server
    else crons_sharing_server rest server
