-- ===== src/Lib.antt =====
-- Verification of the core of nvoi, a tool that deploys an application from a configuration file
-- (nvoi.yaml) to cloud servers and a Kubernetes cluster on them. A deploy reads the configuration,
-- validates it, computes a plan from what is desired and what is live, and then applies it step by
-- step: infrastructure first, then the workloads of the cluster in dependency order, each step
-- sweeping away what it owns and does not want any more.
--
-- The files, and the code that each is about:
--   Base       lists, texts as lists of character codes, sorting, and Go maps as association lists
--   Naming     pkg/utils/naming.go: the names of all resources (type Names), labels, and the
--              regular expressions for names as matchers that read the text once (Naming/Dns)
--   Vars       pkg/utils/envvars.go and internal/reconcile/envvars.go: $VAR and ${VAR} references
--   Config     internal/config/config.go: the configuration; Config/View for configview.go and the
--              ServerSpec and VolumeSpec of pkg/provider/infra.go
--   Topsort    internal/reconcile/topsort.go: topoSortServices (Kahn's algorithm), and in
--              Topsort/Cycle findDependencyCycle (depth-first search with three colours)
--   Validate   internal/reconcile/validate.go: ValidateConfig, one function per block of checks
--   Servers    internal/reconcile/helpers.go: SplitServers and ResolveServers
--   Firewall   pkg/provider/allowlist.go: port allow-lists
--   Plan       pkg/provider/plan.go (ComputeInfraPlan, in Plan/Infra) and the methods of Plan in
--              internal/reconcile/plan.go (Plan/Entry); of that file also secretKeyDiff with
--              desiredSecretKeys (Plan/Keys), planStorage and planRegistries (Plan/Storage),
--              planDatabases (Plan/Databases), planServices and planCrons (Plan/Services), and
--              ComputePlan with planRouteDomains, planIngress and planTunnelIngress
--              (Plan/Compute), all on what is live (Plan/Live)
--   Image      internal/reconcile/image.go (ResolveImage) and stripDeployHash of
--              internal/reconcile/plan.go
--   Secrets    internal/reconcile/secrets.go (collectSecretKeys) and resolveEntry of envvars.go
--   Kube       pkg/kube/sweep.go: SweepOwned and ListOwned; pkg/kube/secrets.go in Kube/Secrets
--   Deploy     internal/reconcile/reconcile.go: Deploy as a computation that records its calls
--              (Deploy/Action, Deploy/Steps) over the steps and providers it is given
--              (Deploy/Engine); the specification as phases and events (Deploy/Phases)
--   Workload   internal/reconcile/services.go and crons.go: the credentials of a workload's
--              secret, upsertServiceSecrets, and the loops of Services and Crons over a cluster
--              that is a parameter (Workload/Apply); ServiceSet and CronSet of pkg/core
--              (Workload/Set) and the objects of pkg/kube/generate.go and cron.go that they
--              apply (Workload/Objects)
--   Tests      runs on concrete data, and the theorems applied to it
--
-- How code is rendered. A Go map is a list of its entries in the order in which one `range` visits
-- them; theorems that need distinct keys say so, and hold for every order. An error is a value:
-- `fail` with the name and the kind of the message in Validate, `none` or a constructor of the
-- result type elsewhere; message texts are not modelled. Texts are ASCII. A configured integer is
-- an integer without bounds, since the code only compares it, up to the conversion to 32 bits in
-- Workload/Objects, which wraps around. There an object has the fields that differ between
-- workloads, and a pod's volume and its mount are one record with an index for a name.
--
-- Fuel. The loops of Vars run on the length of the text, kahn on the number of services, the depth
-- of the cycle search on the number of services too. The theorems show each to be enough: none of
-- the results below is conditional on a run that ends, and running out of fuel is a result of its
-- own where it could occur.
--
-- Parameters. The registered providers (Validate/Infra, Registries) and the API server of the
-- cluster (Kube/Sweep, Api; Kube/Secrets, SecretApi; Workload/Apply, Cluster; Plan/Live) are
-- arguments. Deploy takes the infra provider, the operator's answer and each step of the other files
-- as fields of one record (Deploy/Engine), so its theorems hold whatever these do; ComputePlan is one
-- step there, with the client that it opens and closes for itself. What ComputePlan reads is one
-- record of answers (Plan/Live), since the planners only read.
--
-- Not modelled: calls of cloud services, SSH and the Kubernetes client, YAML decoding, the command
-- line and terminal output, which are I/O; the insides of most steps of a deployment, the reading
-- of secret values and the teardown.
pub mod Base
pub mod Naming
pub mod Vars
pub mod Config
pub mod Topsort
pub mod Validate
pub mod Servers
pub mod Firewall
pub mod Plan
pub mod Kube
pub mod Image
pub mod Secrets
pub mod Deploy
pub mod Workload
pub mod Tests
