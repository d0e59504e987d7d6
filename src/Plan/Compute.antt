-- ===== src/Plan/Compute.antt =====
-- ComputePlan of internal/reconcile/plan.go, and its planners for DNS records and ingress.
use nvoi.Base.{
  Bytes, bytes, Dict, Option, none, some, Bool, List, [], ◌∷◌, ◌++◌, if◌then◌else◌, ◌&&◌, not,
  is_empty, contains, select, append_all,
}
use nvoi.Base.Sort.{sorted_keys}
use nvoi.Naming.{Names}
use nvoi.Config.{AppConfig}
use nvoi.Kube.Sweep.{deployment, secret}
use nvoi.Plan.Entry.{
  PlanEntry, entry, Resource, add, delete, no_change, text, no_detail, caddy_route,
}
use nvoi.Plan.Infra.{kind_of, plan_deletes}
use nvoi.Plan.Storage.{plan_storage, plan_registries}
use nvoi.Plan.Databases.{live_databases, database_entries}
use nvoi.Plan.Live.{Live, Planned, entries, fails, no_kube, crossed_slice, ◌then◌, read_or}
use nvoi.Plan.Services.{plan_services, plan_crons}

-- The domains of all services.
unfoldable pub domain_names : Dict (List Bytes) → List Bytes
domain_names [] = []
domain_names ((svc, domains) ∷ rest) = domains ++ domain_names rest

unfoldable pub name_adds : Resource → (existing desired : List Bytes) → List PlanEntry
name_adds resource existing [] = []
name_adds resource existing (d ∷ desired) =
    entry (kind_of (contains d existing)) resource d no_detail ∷ name_adds resource existing desired

-- The live records that are not desired and that Caddy serves. Without an answer of Caddy there
-- is none.
abbrev pub dns_deletes :
    (desired bindings : List Bytes) → Option (List (List Bytes)) → List PlanEntry
dns_deletes desired bindings none = []
dns_deletes desired bindings (some routes) =
    plan_deletes Resource.dns desired
      (select (λ d. contains d (append_all routes)) (sorted_keys bindings))

abbrev pub route_entries :
    (desired bindings : List Bytes) → Option (List (List Bytes)) → List PlanEntry
route_entries desired bindings routes =
    name_adds Resource.dns bindings (sorted_keys desired) ++ dns_deletes desired bindings routes

unfoldable pub plan_route_domains : Live → AppConfig → Planned
unfolding domain_names name_adds
plan_route_domains live cfg =
    if is_empty live.dns_name
    then entries []
    else read_or (bytes "dns") live.bindings
        (λ bindings. entries (route_entries (domain_names cfg.domains) bindings live.caddy_routes))

abbrev pub caddy_detail : Bytes
caddy_detail = bytes "ingress controller (kube-system)"

abbrev pub served_domains : Option (List (List Bytes)) → List Bytes
served_domains none = []
served_domains (some routes) = append_all routes

unfoldable pub ingress_routes : (desired served : List Bytes) → List PlanEntry
unfolding name_adds
ingress_routes desired served =
    name_adds caddy_route served (sorted_keys desired)
    ++ plan_deletes caddy_route desired (sorted_keys served)

unfoldable pub plan_ingress : Live → AppConfig → Planned
unfolding domain_names ingress_routes
plan_ingress live cfg = read_or (bytes "ingress") live.caddy_deployments (λ deploys. entries (
    entry (kind_of (not (is_empty deploys))) caddy_route (bytes "caddy") (text caddy_detail)
    ∷ ingress_routes (domain_names cfg.domains) (served_domains live.caddy_routes)))

abbrev pub owner_tunnel : Bytes
owner_tunnel = bytes "tunnel"

abbrev pub tunnel_detail : Bytes
tunnel_detail = bytes "tunnel agent + provider-side tunnel"

-- Of the agents that run and the configured provider.
abbrev pub tunnel_entries : (agents : List Bytes) → (provider : Bytes) → List PlanEntry
tunnel_entries [] [] = []
tunnel_entries [] (c ∷ provider) =
    entry add Resource.tunnel (c ∷ provider) (text tunnel_detail) ∷ []
tunnel_entries (a ∷ agents) [] = entry delete Resource.tunnel (bytes "tunnel") no_detail ∷ []
tunnel_entries (a ∷ agents) (c ∷ provider) =
    entry no_change Resource.tunnel (c ∷ provider) (text tunnel_detail) ∷ []

unfoldable pub plan_tunnel_ingress : Live → AppConfig → Planned
plan_tunnel_ingress live cfg =
    read_or (bytes "tunnel") (live.owned owner_tunnel deployment)
      (λ agents. entries (tunnel_entries agents cfg.providers.tunnel))

unfoldable pub storage_part : Names → Live → AppConfig → Planned
storage_part names live cfg =
    if is_empty live.storage_name
    then entries []
    else read_or (bytes "storage") live.buckets
        (λ buckets. entries (plan_storage names cfg buckets))

abbrev pub or_panic : Option (List Bytes) → (List Bytes → Planned) → Planned
or_panic none f = fails crossed_slice
or_panic (some names) f = f names

-- The names of the live databases come from those of their secrets; a slice whose bounds
-- cross panics.
unfoldable pub databases_part : Live → AppConfig → Planned
databases_part live cfg =
    read_or (bytes "databases") (live.owned (bytes "databases") secret) (λ secrets.
      or_panic (live_databases secrets)
        (λ existing. entries (database_entries cfg.databases existing)))

unfoldable pub registries_part : Live → AppConfig → Planned
registries_part live cfg =
    read_or (bytes "registries") (live.owned (bytes "registries") secret)
      (λ existing. entries (plan_registries cfg.registry existing))

-- Whether Deploy leads domains to the cluster's own ingress.
abbrev pub is_caddy_mode : Live → AppConfig → Bool
is_caddy_mode live cfg =
    is_empty cfg.providers.tunnel && (live.has_public_ingress && not (is_empty cfg.domains))

unfoldable pub dns_part : Live → AppConfig → Planned
dns_part live cfg = if is_caddy_mode live cfg then plan_route_domains live cfg else entries []

unfoldable pub ingress_part : Live → AppConfig → Planned
ingress_part live cfg =
    if not (is_empty cfg.providers.tunnel)
    then plan_tunnel_ingress live cfg
    else if live.has_public_ingress && not (is_empty cfg.domains)
    then plan_ingress live cfg
    else entries []

-- The planners in their order.
unfoldable pub run_planners : Names → Live → AppConfig → (hash : Bytes) → Planned
run_planners names live cfg hash =
    read_or (bytes "infra") live.infra entries
    then (storage_part names live cfg
        then (databases_part live cfg
            then (registries_part live cfg
                then (plan_services live cfg hash
                    then (plan_crons live cfg hash
                        then (dns_part live cfg then ingress_part live cfg))))))

unfoldable pub compute_plan : Names → Live → AppConfig → (hash : Bytes) → Planned
compute_plan names live cfg hash =
    if live.kube then run_planners names live cfg hash else fails no_kube
