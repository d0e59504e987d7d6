-- ===== src/Config.antt =====
-- internal/config/config.go: the declared configuration, and the tests on its fields.
pub mod View
use nvoi.Base.{
  ℕ, zero, suc, Bytes, bytes, Dict, Option, none, some, Bool, true, false, List, [], ◌∷◌,
}
use nvoi.Base.{is_empty}

-- A Go `int`: no arithmetic is done on the configured numbers. `negsuc n` is -(n + 1).
pub data ℤ : Type 0 where
  pos : ℕ → ℤ
  negsuc : ℕ → ℤ

abbrev pub is_negative : ℤ → Bool
is_negative (pos n) = false
is_negative (negsuc n) = true

abbrev pub is_zero : ℤ → Bool
is_zero (pos zero) = true
is_zero (pos (suc n)) = false
is_zero (negsuc n) = false

abbrev pub is_one : ℤ → Bool
is_one (pos zero) = false
is_one (pos (suc zero)) = true
is_one (pos (suc (suc n))) = false
is_one (negsuc n) = false

abbrev pub is_positive : ℤ → Bool
is_positive (pos zero) = false
is_positive (pos (suc n)) = true
is_positive (negsuc n) = false

-- `secrets` is the kind of the secrets block, if one is declared.
pub record ProvidersDef : Type 0 where
  pub infra : Bytes
  pub dns : Bytes
  pub build : Bytes
  pub storage : Bytes
  pub secrets : Option Bytes
  pub tunnel : Bytes
  pub ci : Bytes

pub record ServerDef : Type 0 where
  pub type : Bytes
  pub region : Bytes
  pub role : Bytes
  pub disk : ℤ

pub record VolumeDef : Type 0 where
  pub size : ℤ
  pub server : Bytes
  pub mount_path : Bytes

pub record StorageDef : Type 0 where
  pub cors : Bool
  pub expire_days : ℤ
  pub bucket : Bytes

pub record DatabaseCredentialsDef : Type 0 where
  pub user : Bytes
  pub password : Bytes
  pub database : Bytes

pub record DatabaseBackupDef : Type 0 where
  pub schedule : Bytes
  pub retention : ℤ

pub record DatabaseDef : Type 0 where
  pub engine : Bytes
  pub version : Bytes
  pub server : Bytes
  pub size : ℤ
  pub region : Bytes
  pub credentials : Option DatabaseCredentialsDef
  pub backup : Option DatabaseBackupDef

pub record RegistryDef : Type 0 where
  pub username : Bytes
  pub password : Bytes

pub record BuildSpec : Type 0 where
  pub context : Bytes
  pub dockerfile : Bytes

pub record ServiceDef : Type 0 where
  pub image : Bytes
  pub port : ℤ
  pub replicas : ℤ
  pub command : Bytes
  pub health : Bytes
  pub server : Bytes
  pub servers : List Bytes
  pub env : List Bytes
  pub secrets : List Bytes
  pub storage : List Bytes
  pub databases : List Bytes
  pub volumes : List Bytes
  pub depends_on : List Bytes
  pub build : Option BuildSpec

pub record CronDef : Type 0 where
  pub image : Bytes
  pub schedule : Bytes
  pub command : Bytes
  pub server : Bytes
  pub servers : List Bytes
  pub env : List Bytes
  pub secrets : List Bytes
  pub storage : List Bytes
  pub volumes : List Bytes

pub record AppConfig : Type 0 where
  pub app : Bytes
  pub env : Bytes
  pub providers : ProvidersDef
  pub servers : Dict ServerDef
  pub firewall : List Bytes
  pub volumes : Dict VolumeDef
  pub secrets : List Bytes
  pub storage : Dict StorageDef
  pub databases : Dict DatabaseDef
  pub registry : Dict RegistryDef
  pub services : Dict ServiceDef
  pub crons : Dict CronDef
  pub domains : Dict (List Bytes)
  pub master_firewall : Bytes
  pub worker_firewall : Bytes

-- ResolvedServers of a service and of a cron: `servers`, else the single `server`.
unfoldable pub resolved_servers : (servers : List Bytes) (server : Bytes) → List Bytes
resolved_servers (s ∷ ss) server = s ∷ ss
resolved_servers [] [] = []
resolved_servers [] (c ∷ server) = (c ∷ server) ∷ []

-- BuildContext of config.go: the empty text stands for no build.
abbrev pub build_context : Option BuildSpec → Bytes
build_context none = []
build_context (some b) = b.context
