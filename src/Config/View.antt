-- ===== src/Config/View.antt =====
-- internal/config/configview.go: the configuration as the providers see it, sorted by name.
use nvoi.Base.{Bytes, Dict, none, some, List, [], ◌∷◌, lookup, keys}
use nvoi.Base.Sort.{sort}
use nvoi.Config.{ℤ, AppConfig, ServerDef, VolumeDef}

pub record ServerSpec : Type 0 where
  pub name : Bytes
  pub type : Bytes
  pub region : Bytes
  pub role : Bytes
  pub disk : ℤ

pub record VolumeSpec : Type 0 where
  pub name : Bytes
  pub size : ℤ
  pub server : Bytes
  pub mount_path : Bytes

abbrev pub server_spec : Bytes → ServerDef → ServerSpec
server_spec name s = record {
  name = name;
  type = s.type;
  region = s.region;
  role = s.role;
  disk = s.disk;
}

abbrev pub volume_spec : Bytes → VolumeDef → VolumeSpec
volume_spec name v = record {
  name = name;
  size = v.size;
  server = v.server;
  mount_path = v.mount_path;
}

-- The entries of a map at the given keys.
unfoldable pub at_keys {ℓ κ} :
    {V : Type ℓ} {A : Type κ} → (Bytes → V → A) → Dict V → List Bytes → List A
unfolding lookup
at_keys f m [] = []
at_keys f m (k ∷ ks) = elim (lookup k m) [ none ↦ at_keys f m ks | some v ↦ f k v ∷ at_keys f m ks ]

unfoldable pub server_defs : AppConfig → List ServerSpec
unfolding at_keys sort
server_defs cfg = at_keys server_spec cfg.servers (sort (keys cfg.servers))

unfoldable pub volume_defs : AppConfig → List VolumeSpec
unfolding at_keys sort
volume_defs cfg = at_keys volume_spec cfg.volumes (sort (keys cfg.volumes))
