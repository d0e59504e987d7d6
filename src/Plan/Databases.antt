-- ===== src/Plan/Databases.antt =====
-- planDatabases of internal/reconcile/plan.go: the databases that the live secrets tell of.
use nvoi.Base.{
  ℕ, zero, suc, ◌+◌, ◌-◌, ◌<◌, Bytes, bytes, Dict, true, List, [], ◌∷◌, ◌++◌, if◌then◌else◌, Option,
  none, some, is_empty, ltb, leb, ◌&&◌, length, length-append, has_prefix, has_suffix, index_of,
  contains, ◌≡◌, refl, sym, ap, ap₂, ◌∙◌, append_assoc, arith,
}
use nvoi.Base.{lookup, keys}
use nvoi.Base.Sort.{sorted_keys, contains-sorted_keys}
use nvoi.Config.{DatabaseDef}
use nvoi.Plan.Entry.{PlanEntry, entry, Resource, Detail, no_detail, text}
use nvoi.Plan.Infra.{kind_of, plan_deletes}
use nvoi.Plan.Diff.{
  IsDiff, IsDesiredPart, IsDesiredPart-nil, IsDesiredPart-cons, IsDesiredPart-same, join-IsDiff,
}
use nvoi.Naming.{Names, base, database, kube_database_credentials}
use mathlib.Core.List.{reverse, reverse-append}

-- `panics` is a slice whose bounds cross.
pub data LiveName : Type 0 where
  skipped panics : LiveName
  found : Bytes → LiveName

abbrev pub take : ℕ → Bytes → Bytes
take zero s = []
take (suc n) [] = []
take (suc n) (c ∷ s) = c ∷ take n s

abbrev pub drop : ℕ → Bytes → Bytes
drop zero s = s
drop (suc n) [] = []
drop (suc n) (c ∷ s) = drop n s

abbrev pub non_empty : Bytes → LiveName
non_empty [] = skipped
non_empty (c ∷ s) = found (c ∷ s)

abbrev pub marker : Bytes
marker = bytes "-db-"

abbrev pub credentials_suffix : Bytes
credentials_suffix = bytes "-credentials"

-- `s[from:to]`
abbrev pub slice : Bytes → (from to : ℕ) → LiveName
slice s from to = if leb from to then non_empty (take (to - from) (drop from s)) else panics

-- The name of the database in the name of its credentials secret, where the marker is at `i`.
abbrev pub name_at : Bytes → Option ℕ → LiveName
name_at s none = skipped
name_at s (some i) =
    if ltb 0 i && has_suffix credentials_suffix s then slice s (i + 4) (length s - 12) else skipped

unfoldable pub live_database : (secret : Bytes) → LiveName
unfolding index_of has_suffix
live_database s = name_at s (index_of s marker)

-- The set of the names that are found; `none` is a panic.
abbrev pub and_found : LiveName → Option (List Bytes) → Option (List Bytes)
and_found panics rest = none
and_found skipped rest = rest
and_found (found n) none = none
and_found (found n) (some ns) = some (n ∷ ns)

unfoldable pub live_databases : List Bytes → Option (List Bytes)
live_databases [] = some []
live_databases (s ∷ secrets) = and_found (live_database s) (live_databases secrets)

abbrev pub database_detail : Option DatabaseDef → Detail
database_detail none = no_detail
database_detail (some def) =
    text (if is_empty def.server then def.engine else def.engine ++ bytes " on " ++ def.server)

unfoldable pub database_adds : Dict DatabaseDef → (live names : List Bytes) → List PlanEntry
database_adds dbs live [] = []
database_adds dbs live (n ∷ names) =
    entry (kind_of (contains n live)) Resource.database n (database_detail (lookup n dbs))
    ∷ database_adds dbs live names

-- The entries, for the databases that are live.
unfoldable pub database_entries : Dict DatabaseDef → (live : List Bytes) → List PlanEntry
database_entries dbs live =
    database_adds dbs live (sorted_keys (keys dbs))
    ++ plan_deletes Resource.database (keys dbs) (sorted_keys live)

take-append : (a b : Bytes) → take (length a) (a ++ b) ≡ a
take-append [] b = refl
take-append (c ∷ a) b = ap (λ s. c ∷ s) (take-append a b)

drop-append : (a b : Bytes) → drop (length a) (a ++ b) ≡ b
drop-append [] b = refl
drop-append (c ∷ a) b = drop-append a b

has_prefix-append : (a b : Bytes) → has_prefix a (a ++ b) ≡ true
unfolding has_prefix
has_prefix-append [] b = refl
has_prefix-append (c ∷ a) b = ground (arith, has_prefix-append a b)

has_suffix-append : (a b : Bytes) → has_suffix b (a ++ b) ≡ true
unfolding has_suffix
has_suffix-append a b =
    ap (has_prefix (reverse b)) (reverse-append a b) ∙ has_prefix-append (reverse b) (reverse a)

slice-middle :
    (front middle end : Bytes) (from to : ℕ)
    → from ≡ length front
    → to ≡ length front + length middle
    → slice (front ++ (middle ++ end)) from to ≡ non_empty middle
slice-middle front middle end from to f t =
    let inside : leb from to ≡ true = ground (arith, f, t) in
    let width : to - from ≡ length middle = omega (arith, f, t) in
    let rest : drop from (front ++ (middle ++ end)) ≡ middle ++ end =
      ap (λ n. drop n (front ++ (middle ++ end))) f ∙ drop-append front (middle ++ end) in
    rw inside (ap non_empty (ap₂ (λ n s. take n s) width rest ∙ take-append middle end))

-- A secret's name that has the marker first behind `front`.
live_database-parts :
    (front name : Bytes)
    → 0 < length front
    → index_of (front ++ marker ++ (name ++ credentials_suffix)) marker ≡ some (length front)
    → live_database (front ++ marker ++ (name ++ credentials_suffix)) ≡ non_empty name
unfolding live_database
live_database-parts front name some_front at =
    let s = front ++ marker ++ (name ++ credentials_suffix) in
    let ends : has_suffix credentials_suffix s ≡ true =
      ap (has_suffix credentials_suffix)
        (sym (append_assoc (front ++ marker) name credentials_suffix))
      ∙ has_suffix-append (front ++ marker ++ name) credentials_suffix in
    let starts : ltb 0 (length front) ≡ true = ground (arith, some_front) in
    let sizes : length s ≡ length front + 4 + (length name + 12) =
      length-append (front ++ marker) (name ++ credentials_suffix)
      ∙ ap₂ (λ a b. a + b) (length-append front marker) (length-append name credentials_suffix) in
    ap (name_at s) at
    ∙ rw (starts, ends)
        (slice-middle (front ++ marker) name credentials_suffix (length front + 4) (length s - 12)
          (sym (length-append front marker)) (omega (arith, sizes, length-append front marker)))

prefix_of_marker :
    (c : ℕ) (a rest : Bytes)
    → has_prefix marker (c ∷ (a ++ marker ++ rest)) ≡ has_prefix marker (c ∷ (a ++ bytes "-db"))
unfolding has_prefix
prefix_of_marker c [] rest = refl
prefix_of_marker c (d ∷ []) rest = refl
prefix_of_marker c (d ∷ e ∷ []) rest = refl
prefix_of_marker c (d ∷ e ∷ f ∷ a) rest = refl

index_of-marker :
    (a rest : Bytes)
    → index_of (a ++ bytes "-db") marker ≡ none
    → index_of (a ++ marker ++ rest) marker ≡ some (length a)
unfolding index_of has_prefix
index_of-marker [] rest h = refl
index_of-marker (c ∷ a) rest h =
    ground (arith, h, prefix_of_marker c a rest, index_of-marker a rest)

credentials_as_parts :
    (n : Names) (x : Bytes)
    → kube_database_credentials n x ≡ base n ++ marker ++ (x ++ credentials_suffix)
unfolding kube_database_credentials database
credentials_as_parts n x = append_assoc (base n ++ marker) x credentials_suffix

some_base : (n : Names) → 0 < length (base n)
unfolding base
some_base n = omega arith

-- Where the base name does not hold the marker `-db-`, not even with `-db` put behind it, the plan
-- reads the database's name back from the name of its credentials secret, for every database of a
-- non-empty name.
pub live_database-credentials :
    (n : Names) (c : ℕ) (x : Bytes)
    → index_of (base n ++ bytes "-db") marker ≡ none
    → live_database (kube_database_credentials n (c ∷ x)) ≡ found (c ∷ x)
live_database-credentials n c x clean =
    ap live_database (credentials_as_parts n (c ∷ x))
    ∙ live_database-parts (base n) (c ∷ x) (some_base n)
        (index_of-marker (base n) (c ∷ x ++ credentials_suffix) clean)

-- For the app named `db` it reads another name than it wrote: what it reads begins with the env.
pub live_database-app_db :
    (env x : Bytes)
    → live_database (kube_database_credentials (record { app = bytes "db"; env = env }) x)
      ≡ non_empty (env ++ marker ++ x)
unfolding kube_database_credentials database base index_of has_prefix
live_database-app_db env x =
    live_database-parts (bytes "nvoi") (env ++ marker ++ x) (omega arith) refl

database_adds-IsDesiredPart :
    (dbs : Dict DatabaseDef) (live names : List Bytes)
    → IsDesiredPart names live (database_adds dbs live names)
unfolding database_adds
database_adds-IsDesiredPart dbs live [] = IsDesiredPart-nil live
database_adds-IsDesiredPart dbs live (n ∷ names) =
    IsDesiredPart-cons n names live _ (database_adds dbs live names) refl refl
      (database_adds-IsDesiredPart dbs live names)

-- The database part of the plan is the difference between the configured databases and those read
-- from the live secrets: it adds, deletes and lists as unchanged exactly those names.
pub database_entries-IsDiff :
    (dbs : Dict DatabaseDef) (live : List Bytes)
    → IsDiff (keys dbs) live (database_entries dbs live)
unfolding database_entries
database_entries-IsDiff dbs live =
    join-IsDiff Resource.database (keys dbs) live (sorted_keys live)
      (database_adds dbs live (sorted_keys (keys dbs))) (λ n. contains-sorted_keys n live)
      (IsDesiredPart-same (sorted_keys (keys dbs)) (keys dbs) live
        (database_adds dbs live (sorted_keys (keys dbs))) (λ n. contains-sorted_keys n (keys dbs))
        (database_adds-IsDesiredPart dbs live (sorted_keys (keys dbs))))
