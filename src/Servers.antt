-- ===== src/Servers.antt =====
-- internal/reconcile/helpers.go: masters and workers, and the servers that a workload runs on.
use nvoi.Base.{Bytes, Dict, Option, none, some, List, [], ◌∷◌}
use nvoi.Base.{if◌then◌else◌, ◌==◌, lookup, keys}
use nvoi.Base.Sort.{sort}
use nvoi.Naming.{role_worker}
use nvoi.Config.{AppConfig, ServerDef, VolumeDef}
use nvoi.Validate.Text.{named_volume}

pub record NamedServer : Type 0 where
  pub name : Bytes
  pub def : ServerDef

pub record Split : Type 0 where
  pub masters : List NamedServer
  pub workers : List NamedServer

-- One round of the loop of SplitServers, in front of what the later rounds append.
unfoldable pub split_one : Bytes → Option ServerDef → Split → Split
split_one name none rest = rest
split_one name (some s) rest =
    if s.role == role_worker
    then record rest { workers = record { name = name; def = s } ∷ rest.workers }
    else record rest { masters = record { name = name; def = s } ∷ rest.masters }

unfoldable pub split_names : Dict ServerDef → List Bytes → Split
unfolding split_one
split_names servers [] = record { masters = []; workers = [] }
split_names servers (name ∷ names) =
    split_one name (lookup name servers) (split_names servers names)

unfoldable pub split_servers : Dict ServerDef → Split
unfolding split_names
split_servers servers = split_names servers (sort (keys servers))

-- The loop over the mounts: the server of the first volume that is mounted by name.
unfoldable pub mounted_server : Dict VolumeDef → List Bytes → List Bytes
mounted_server volumes [] = []
mounted_server volumes (mount ∷ mounts) = elim (named_volume volumes mount) [
  | none ↦ mounted_server volumes mounts
  | some vol ↦ vol.server ∷ []
]

unfoldable pub resolve_servers :
    AppConfig → (servers : List Bytes) → (server : Bytes) → (mounts : List Bytes) → List Bytes
unfolding mounted_server
resolve_servers cfg (s ∷ servers) server mounts = s ∷ servers
resolve_servers cfg [] (c ∷ server) mounts = (c ∷ server) ∷ []
resolve_servers cfg [] [] mounts = mounted_server cfg.volumes mounts
