-- ===== src/Plan/Entry.antt =====
-- The entries of a plan: PlanKind, PlanEntry and the resource names of pkg/provider/plan.go, and
-- the methods of Plan in internal/reconcile/plan.go.
use nvoi.Base.{
  ℕ, Bytes, bytes, Bool, true, false, List, [], ◌∷◌, if◌then◌else◌, is_empty, ◌&&◌, ◌||◌,
}
use nvoi.Config.{ℤ}

pub data PlanKind : Type 0 where
  add delete update no_change : PlanKind

abbrev pub glyph : PlanKind → Bytes
glyph add = bytes "+"
glyph delete = bytes "-"
glyph update = bytes "~"
glyph no_change = bytes "~"

abbrev pub word : PlanKind → Bytes
word add = bytes "add"
word delete = bytes "remove"
word update = bytes "change"
word no_change = bytes "unchanged"

pub data Resource : Type 0 where
  server firewall firewall_rule volume network dns bucket database tunnel : Resource
  namespace registry_secret workload secret_key cron_job caddy_route : Resource

-- The values that the `Detail` text is printed from.
pub data Detail : Type 0 where
  no_detail : Detail
  text : Bytes → Detail
  type_region : (type region : Bytes) → Detail
  size_on : (size : ℤ) → (server : Bytes) → Detail
  cache_on : (server : Bytes) → Detail
  cidrs : List Bytes → Detail
  changed : (from to : List Bytes) → Detail
  removed : List Bytes → Detail
  image_changed : (from to : Bytes) → Detail
  schedule_changed : (from to : Bytes) → Detail
  hosts : ℕ → Detail

pub record PlanEntry : Type 0 where
  pub kind : PlanKind
  pub resource : Resource
  pub name : Bytes
  pub detail : Detail
  pub reason : Bytes

abbrev pub entry : PlanKind → Resource → Bytes → Detail → PlanEntry
entry kind resource name detail = record {
  kind = kind;
  resource = resource;
  name = name;
  detail = detail;
  reason = [];
}

abbrev pub is_change : PlanKind → Bool
is_change add = true
is_change delete = true
is_change update = true
is_change no_change = false

-- PlanEntry.Promptable
abbrev pub entry_promptable : PlanEntry → Bool
entry_promptable e = is_empty e.reason

unfoldable pub is_infra_resource : Resource → Bool
is_infra_resource server = true
is_infra_resource firewall = true
is_infra_resource firewall_rule = true
is_infra_resource volume = true
is_infra_resource network = true
is_infra_resource dns = true
is_infra_resource bucket = true
is_infra_resource database = true
is_infra_resource tunnel = true
is_infra_resource namespace = false
is_infra_resource registry_secret = false
is_infra_resource workload = false
is_infra_resource secret_key = false
is_infra_resource cron_job = false
is_infra_resource caddy_route = false

-- The method Changes of Plan
unfoldable pub changes : List PlanEntry → List PlanEntry
changes [] = []
changes (e ∷ es) = if is_change e.kind then e ∷ changes es else changes es

-- The method HasInfraChanges of Plan
unfoldable pub has_infra_changes : List PlanEntry → Bool
unfolding is_infra_resource
has_infra_changes [] = false
has_infra_changes (e ∷ es) =
    (is_change e.kind && is_infra_resource e.resource) || has_infra_changes es

-- The method Promptable of Plan
unfoldable pub promptable : List PlanEntry → List PlanEntry
promptable [] = []
promptable (e ∷ es) =
    if is_change e.kind && entry_promptable e then e ∷ promptable es else promptable es
