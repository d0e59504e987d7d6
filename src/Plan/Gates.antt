-- ===== src/Plan/Gates.antt =====
-- What the gates of ComputePlan in internal/reconcile/plan.go leave out of the plan.
use nvoi.Base.{
  bytes, Bytes, Dict, Option, none, some, Bool, true, false, List, [], ◌∷◌, any, is_empty, arith,
  ◌≡◌, refl, sym, ap, ◌∙◌, if◌then◌else◌, keys,
}
use nvoi.Base.Sort.{sorted_keys}
use nvoi.Kube.Sweep.{secret}
use nvoi.Naming.{Names}
use nvoi.Config.{AppConfig, DatabaseDef}
use nvoi.Plan.Entry.{PlanEntry, Resource}
use nvoi.Plan.Infra.{plan_deletes}
use nvoi.Plan.Storage.{bucket_entries, plan_storage}
use nvoi.Plan.Databases.{database_adds, database_entries, live_databases}
use nvoi.Plan.Live.{Live, Planned, entries, ◌then◌, read_or}
use nvoi.Plan.Compute.{storage_part, databases_part, dns_part, ingress_part, compute_plan, or_panic}
use nvoi.Plan.Scope.{is_planned, any_entry, is_workload, any-append}
use nvoi.Plan.Whole.{infra_part, compute_plan-any}

-- The entries of the ways in: DNS records, routes of Caddy, tunnels.
abbrev pub is_route : PlanEntry → Bool
is_route e = elim e.resource [
  | Resource.dns ↦ true
  | Resource.caddy_route ↦ true
  | Resource.tunnel ↦ true
  | _ ↦ false
]

is_route-apart : (e : PlanEntry) → is_workload e ≡ true → is_route e ≡ false
is_route-apart e h = ground (arith, h)

is_route-buckets :
    (existing desired : List Bytes) → any is_route (bucket_entries existing desired) ≡ false
unfolding bucket_entries
is_route-buckets existing [] = refl
is_route-buckets existing (n ∷ desired) = ground (arith, is_route-buckets existing desired)

is_route-database_adds :
    (dbs : Dict DatabaseDef) (existing desired : List Bytes)
    → any is_route (database_adds dbs existing desired) ≡ false
unfolding database_adds
is_route-database_adds dbs existing [] = refl
is_route-database_adds dbs existing (n ∷ desired) =
    ground (arith, is_route-database_adds dbs existing desired)

is_route-deletes :
    (desired existing : List Bytes)
    → any is_route (plan_deletes Resource.database desired existing) ≡ false
unfolding plan_deletes
is_route-deletes desired [] = refl
is_route-deletes desired (n ∷ existing) = ground (arith, is_route-deletes desired existing)

is_route-database_entries :
    (dbs : Dict DatabaseDef) (existing : List Bytes)
    → any is_route (database_entries dbs existing) ≡ false
unfolding database_entries
is_route-database_entries dbs existing =
    let adds = database_adds dbs existing (sorted_keys (keys dbs)) in
    let dels = plan_deletes Resource.database (keys dbs) (sorted_keys existing) in
    ground (
      arith,
      any-append is_route adds dels,
      is_route-database_adds dbs existing (sorted_keys (keys dbs)),
      is_route-deletes (keys dbs) (sorted_keys existing),
    )

read_or-none :
    {A : Type 0} (p : PlanEntry → Bool) (step : Bytes) (o : Option A) (f : A → Planned)
    → ((a : A) → any_entry p (f a) ≡ false)
    → any_entry p (read_or step o f) ≡ false
read_or-none p step none f h = refl
read_or-none p step (some a) f h = h a

or_panic-none :
    (p : PlanEntry → Bool) (o : Option (List Bytes)) (f : List Bytes → Planned)
    → ((a : List Bytes) → any_entry p (f a) ≡ false)
    → any_entry p (or_panic o f) ≡ false
or_panic-none p none f h = refl
or_panic-none p (some a) f h = h a

if-none :
    (p : PlanEntry → Bool) (b : Bool) (x y : Planned)
    → any_entry p x ≡ false
    → any_entry p y ≡ false
    → any_entry p (if b then x else y) ≡ false
if-none p true x y h k = h
if-none p false x y h k = k

module _ (names : Names) (live : Live) (cfg : AppConfig) (hash : Bytes) (es : List PlanEntry)
    (computed : compute_plan names live cfg hash ≡ entries es) where
  is_route-storage : any_entry is_route (storage_part names live cfg) ≡ false
  unfolding storage_part plan_storage
  is_route-storage =
      if-none is_route (is_empty live.storage_name) _ _ refl
        (read_or-none is_route _ live.buckets _ λ buckets. is_route-buckets _ _)

  is_route-databases : any_entry is_route (databases_part live cfg) ≡ false
  unfolding databases_part
  is_route-databases = read_or-none is_route _ (live.owned (bytes "databases") secret) _ λ secrets.
      or_panic-none is_route (live_databases secrets) _
        λ existing. is_route-database_entries cfg.databases existing

  ungated-dns :
      cfg.providers.tunnel ≡ [] → cfg.domains ≡ [] → any_entry is_route (dns_part live cfg) ≡ false
  unfolding dns_part
  ungated-dns no_tunnel no_domain = ground (arith, no_tunnel, no_domain)

  ungated-ingress :
      cfg.providers.tunnel ≡ []
      → cfg.domains ≡ []
      → any_entry is_route (ingress_part live cfg) ≡ false
  unfolding ingress_part
  ungated-ingress no_tunnel no_domain = ground (arith, no_tunnel, no_domain)

  -- Once the configuration has neither a tunnel nor a domain, the plan has no entry for a DNS record,
  -- a route of Caddy or a tunnel but the infra provider's own, whatever is still live of them.
  pub compute_plan-forgets_routes :
      cfg.providers.tunnel ≡ []
      → cfg.domains ≡ []
      → any is_route es ≡ any_entry is_route (infra_part live)
  compute_plan-forgets_routes no_tunnel no_domain =
      ap (any_entry is_route) (sym computed)
      ∙ compute_plan-any names live cfg hash is_route is_route-apart (ap is_planned computed)
      ∙ rw
          (
            is_route-storage,
            is_route-databases,
            ungated-dns no_tunnel no_domain,
            ungated-ingress no_tunnel no_domain,
          )
          (ground arith)
