-- ===== src/Validate/Placement.antt =====
-- Where databases may run in a configuration that ValidateConfig of internal/reconcile/validate.go
-- accepts, and which services may have domains.
use nvoi.Base.{Bytes, Dict, Option, none, some, true, false, List, [], ◌∷◌}
use nvoi.Base.{
  ◌≡◌, ◌≢◌, ◌↔◌, refl, Bool-cases, arith, if◌then◌else◌, ◌==◌, ==_iff, not, is_empty, has_key,
  contains, lookup, All,
}
use nvoi.Base.{Option-cases, trim_space, inl, inr}
use nvoi.Naming.{role_master}
use nvoi.Config.{
  AppConfig, ServiceDef, CronDef, DatabaseDef, DatabaseCredentialsDef, is_zero, is_one,
}
use nvoi.Validate.{validate_config}
use nvoi.Validate.Checks.{pass, fail, ◌>>◌, reject_if, for_each, >>-pass, not_rejected}
use nvoi.Validate.Checks.{
  for_each_entry-pass, lookup-All, for_each-reject, invalid_domain, credentials_required,
}
use nvoi.Validate.Text.{
  services_sharing_server, crons_sharing_server, database_engine_is_self_hosted,
}
use nvoi.Validate.Infra.{Registries, validate_name}
use nvoi.Validate.Databases.{
  validate_databases, validate_database, validate_self_hosted, validate_credentials,
  validate_database_server,
}
use nvoi.Validate.Routes.{validate_domains, validate_domain_entry, validate_service_domains}
use nvoi.Naming.Dns.{valid_domain}
use nvoi.Validate.Accepted.{validate_config-Sections}

-- A workload that names `server` in neither of its two fields.
abbrev pub AvoidsServer : (server own : Bytes) → (servers : List Bytes) → Type 0
AvoidsServer server own servers = (own ≢ server) × (contains server servers ≡ false)

services_sharing-nil :
    (services : Dict ServiceDef) (server : Bytes)
    → is_empty (services_sharing_server services server) ≡ true
    → All (λ e. AvoidsServer server e.1.server e.1.servers) services
unfolding services_sharing_server
services_sharing-nil [] server h = tt
services_sharing-nil ((name, svc) ∷ rest) server h = (
  (λ e. ground (arith, ==_iff svc.server server), ground arith),
  services_sharing-nil rest server (ground arith),
)

crons_sharing-nil :
    (crons : Dict CronDef) (server : Bytes)
    → is_empty (crons_sharing_server crons server) ≡ true
    → All (λ e. AvoidsServer server e.1.server e.1.servers) crons
unfolding crons_sharing_server
crons_sharing-nil [] server h = tt
crons_sharing-nil ((name, cron) ∷ rest) server h = (
  (λ e. ground (arith, ==_iff cron.server server), ground arith),
  crons_sharing-nil rest server (ground arith),
)

not_equal : (a b : Bytes) → a ≢ b → (a == b) ≡ false
not_equal a b h = elim (Bool-cases (a == b)) [
  | inl same ↦ absurd (h ((==_iff a b).0 same))
  | inr other ↦ other
]

services_sharing-none :
    (services : Dict ServiceDef) (server : Bytes)
    → All (λ e. AvoidsServer server e.1.server e.1.servers) services
    → is_empty (services_sharing_server services server) ≡ true
unfolding services_sharing_server
services_sharing-none [] server h = refl
services_sharing-none ((name, svc) ∷ rest) server ((own, apart), h) =
    ground (arith, own, apart, ==_iff svc.server server, services_sharing-none rest server h)

crons_sharing-none :
    (crons : Dict CronDef) (server : Bytes)
    → All (λ e. AvoidsServer server e.1.server e.1.servers) crons
    → is_empty (crons_sharing_server crons server) ≡ true
unfolding crons_sharing_server
crons_sharing-none [] server h = refl
crons_sharing-none ((name, cron) ∷ rest) server ((own, apart), h) =
    ground (arith, own, apart, ==_iff cron.server server, crons_sharing-none rest server h)

-- The server of a self-hosted database.
pub record IsDedicated (cfg : AppConfig) (server : Bytes) : Type 0 where
  pub defined : has_key server cfg.servers ≡ true
  pub not_named_master : server ≢ role_master
  pub services : All (λ e. AvoidsServer server e.1.server e.1.servers) cfg.services
  pub crons : All (λ e. AvoidsServer server e.1.server e.1.servers) cfg.crons

database_server-pass :
    (cfg : AppConfig) (name server : Bytes)
    → validate_database_server cfg name server ≡ pass
    → IsDedicated cfg server
unfolding validate_database_server
database_server-pass cfg name server h =
    let (defined, h1) = not_rejected (not (has_key server cfg.servers)) _ _ _ h in
    let (other, h2) = not_rejected (server == role_master) _ _ _ h1 in
    let (services, h3) =
      not_rejected (not (is_empty (services_sharing_server cfg.services server))) _ _ _ h2 in
    record {
      defined = ground arith;
      not_named_master = λ e. ground (arith, ==_iff server role_master);
      services = services_sharing-nil cfg.services server (ground arith);
      crons = crons_sharing-nil cfg.crons server (ground arith);
    }

-- The check on the server of a self-hosted database passes exactly if the server is defined, is not
-- named `master`, and no service and no cron names it in `server` or `servers`; the server's role
-- does not matter.
pub database_server-pass_iff :
    (cfg : AppConfig) (name server : Bytes)
    → (validate_database_server cfg name server ≡ pass) ↔ IsDedicated cfg server
unfolding validate_database_server
database_server-pass_iff cfg name server = (
  database_server-pass cfg name server,
  λ d.
      rw
        (
          d.defined,
          not_equal server role_master d.not_named_master,
          services_sharing-none cfg.services server d.services,
          crons_sharing-none cfg.crons server d.crons,
        )
        refl,
)

self_hosted-pass :
    (cfg : AppConfig) (name : Bytes) (db : DatabaseDef)
    → validate_self_hosted cfg name db ≡ pass
    → IsDedicated cfg db.server
unfolding validate_self_hosted
self_hosted-pass cfg name db h = go db.credentials h
  where
    go :
        (c : Option DatabaseCredentialsDef)
        → (elim c [
          | none ↦ fail name credentials_required
          | some c' ↦ validate_credentials name db c' >> validate_database_server cfg name db.server
        ])
          ≡ pass
        → IsDedicated cfg db.server
    go none e = cc
    go (some c) e =
        database_server-pass cfg name db.server (>>-pass (validate_credentials name db c) _ e).1

module _ (regs : Registries) (cfg : AppConfig) (ok : validate_config regs cfg ≡ pass) where
  -- In an accepted configuration the server of a self-hosted database is defined, is not named
  -- `master`, and no service and no cron names it in `server` or `servers`.
  pub accepted-IsDedicated :
      (name : Bytes) (db : DatabaseDef)
      → lookup name cfg.databases ≡ some db
      → database_engine_is_self_hosted db.engine ≡ true
      → IsDedicated cfg db.server
  unfolding validate_databases validate_database
  accepted-IsDedicated name db found hosted =
      let h =
        lookup-All (λ n d. validate_database regs cfg n d ≡ pass) name db cfg.databases
          (for_each_entry-pass (validate_database regs cfg) cfg.databases
            (validate_config-Sections regs cfg ok).databases)
          found in
      let (_, h1) = >>-pass (validate_name name name) _ h in
      let (_, h2) = not_rejected (is_empty (trim_space db.engine)) _ _ _ h1 in
      let (_, h3) = not_rejected (not (contains db.engine regs.database)) _ _ _ h2 in
      let (here, _) =
        >>-pass
          (if database_engine_is_self_hosted db.engine
            then validate_self_hosted cfg name db
            else pass)
          _ h3 in
      self_hosted-pass cfg name db (rw hosted at here)

-- What holds of a service that has domains.
pub record IsRouted (cfg : AppConfig) (name : Bytes) (domains : List Bytes) : Type 0 where
  pub svc : ServiceDef
  pub found : lookup name cfg.services ≡ some svc
  pub has_port : is_zero svc.port ≡ false
  pub replicated : is_one svc.replicas ≡ false
  pub some_domain : domains ≢ []
  pub valid : All (λ d. valid_domain d ≡ true) domains

domain_entry-pass :
    (cfg : AppConfig) (name : Bytes) (domains : List Bytes)
    → validate_domain_entry cfg name domains ≡ pass
    → IsRouted cfg name domains
unfolding validate_domain_entry validate_service_domains
domain_entry-pass cfg name domains h = elim (Option-cases (lookup name cfg.services)) [
  | inl missing ↦ let bad = rw (missing, validate_domain_entry) at h in cc
  | inr (svc, found) ↦
      let h0 = rw (found, validate_domain_entry) at h in
      let (port, h1) = not_rejected (is_zero svc.port) _ _ _ h0 in
      let (some_domain, h2) = not_rejected (is_empty domains) _ _ _ h1 in
      let (valid, h3) =
        >>-pass (for_each (λ d. reject_if (not (valid_domain d)) name invalid_domain) domains) _
          h2 in
      record {
        svc = svc;
        found = found;
        has_port = port;
        replicated = ground arith;
        some_domain = λ e. ground arith;
        valid = for_each-reject valid_domain name invalid_domain domains valid;
      }
]

-- In an accepted configuration every entry of `domains` has a valid domain at least, all of them
-- valid, and belongs to a defined service with a port and not with exactly one replica.
pub accepted-IsRouted :
    (regs : Registries) (cfg : AppConfig)
    → validate_config regs cfg ≡ pass
    → (name : Bytes) (domains : List Bytes) → lookup name cfg.domains ≡ some domains
    → IsRouted cfg name domains
unfolding validate_domains
accepted-IsRouted regs cfg ok name domains found = domain_entry-pass cfg name domains (
    lookup-All (λ n d. validate_domain_entry cfg n d ≡ pass) name domains cfg.domains
      (for_each_entry-pass (validate_domain_entry cfg) cfg.domains
        (validate_config-Sections regs cfg ok).domains)
      found)
