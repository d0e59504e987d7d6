-- ===== src/Tests/Samples.antt =====
-- A configuration that `ValidateConfig` accepts, and its parts.
use nvoi.Base.{Bytes, bytes, Dict, none, some, true, false, [], ◌∷◌}
use nvoi.Config.{pos, ProvidersDef, ServerDef, VolumeDef, DatabaseDef, ServiceDef, AppConfig}
use nvoi.Validate.Infra.{Registries}
use nvoi.Naming.{role_master, role_worker}

abbrev pub regs : Registries
regs = record {
  build_caps = (bytes "local", false) ∷ (bytes "ssh", true) ∷ [];
  ci = [];
  database = bytes "postgres" ∷ [];
}

abbrev pub providers : ProvidersDef
providers = record {
  infra = bytes "hetzner";
  dns = bytes "cloudflare";
  build = [];
  storage = [];
  secrets = none;
  tunnel = bytes "ngrok";
  ci = [];
}

abbrev pub server_of : Bytes → ServerDef
server_of role = record { type = bytes "cx22"; region = bytes "fsn1"; role = role; disk = pos 0 }

abbrev pub api_service : ServiceDef
api_service = record {
  image = bytes "org/api:v2";
  port = pos 3000;
  replicas = pos 2;
  command = [];
  health = [];
  server = bytes "main";
  servers = [];
  env = [];
  secrets = [];
  storage = [];
  databases = [];
  volumes = [];
  depends_on = [];
  build = some (record { context = bytes "."; dockerfile = [] });
}

abbrev pub web_service : ServiceDef
web_service = record {
  image = bytes "nginx";
  port = pos 80;
  replicas = pos 2;
  command = [];
  health = [];
  server = [];
  servers = bytes "main" ∷ [];
  env = [];
  secrets = [];
  storage = [];
  databases = [];
  volumes = [];
  depends_on = bytes "api" ∷ [];
  build = none;
}

abbrev pub disk_service : ServiceDef
disk_service = record {
  image = bytes "redis";
  port = pos 0;
  replicas = pos 1;
  command = [];
  health = [];
  server = [];
  servers = [];
  env = [];
  secrets = [];
  storage = [];
  databases = [];
  volumes = bytes "data:/data" ∷ [];
  depends_on = [];
  build = none;
}

abbrev pub services : Dict ServiceDef
services = (bytes "web", web_service) ∷ (bytes "api", api_service) ∷ []

abbrev pub servers : Dict ServerDef
servers = (bytes "main", server_of role_master) ∷ (bytes "store", server_of role_worker) ∷ []

abbrev pub data_volume : VolumeDef
data_volume = record { size = pos 20; server = bytes "store"; mount_path = [] }

abbrev pub main_database : DatabaseDef
main_database = record {
  engine = bytes "postgres";
  version = [];
  server = bytes "store";
  size = pos 10;
  region = [];
  credentials = some (record { user = bytes "$U"; password = bytes "$P"; database = bytes "shop" });
  backup = none;
}

abbrev pub cfg : AppConfig
cfg = record {
  app = bytes "shop";
  env = bytes "prod";
  providers = providers;
  servers = servers;
  firewall = bytes "8080:10.0.0.1" ∷ [];
  volumes = (bytes "data", data_volume) ∷ [];
  secrets = bytes "U" ∷ bytes "P" ∷ [];
  storage = [];
  databases = (bytes "main", main_database) ∷ [];
  registry = (bytes "ghcr.io", record { username = bytes "u"; password = bytes "p" }) ∷ [];
  services = services;
  crons = [];
  domains = (bytes "web", bytes "shop.example.com" ∷ []) ∷ [];
  master_firewall = [];
  worker_firewall = [];
}

-- A service that depends on itself through another.
abbrev pub cyclic_services : Dict ServiceDef
cyclic_services =
    (bytes "web", web_service)
    ∷ (bytes "api", record api_service { depends_on = bytes "web" ∷ [] })
    ∷ []
