-- ===== src/Plan/Parts.antt =====
-- The server, volume and firewall parts of the plan.
use nvoi.Base.{Bytes, List, [], ◌∷◌, ◌++◌, ◌==◌, Bool-cases, inl, inr, refl, subst, append_assoc}
use nvoi.Base.Sort.{sort, sorted_keys, contains-sort, contains-sorted_keys}
use nvoi.Naming.{role_builder, builder_cache_volume_short}
use nvoi.Config.View.{ServerSpec, VolumeSpec}
use nvoi.Plan.Entry.{server, volume, firewall}
use nvoi.Plan.Infra.{
  plan_server_adds, plan_deletes, server_names, plan_servers, volume_names, cache_names,
}
use nvoi.Plan.Infra.{
  plan_volume_adds, plan_cache_adds, plan_volumes, plan_firewall_adds, plan_firewalls,
}
use nvoi.Plan.Diff.{
  IsDiff, IsDesiredPart, IsDesiredPart-nil, IsDesiredPart-cons, IsDesiredPart-append,
  IsDesiredPart-same, join-IsDiff,
}

plan_server_adds-IsDesiredPart :
    (live : List Bytes) (specs : List ServerSpec)
    → IsDesiredPart (server_names specs) live (plan_server_adds live specs)
unfolding plan_server_adds server_names
plan_server_adds-IsDesiredPart live [] = IsDesiredPart-nil live
plan_server_adds-IsDesiredPart live (s ∷ specs) =
    IsDesiredPart-cons s.name (server_names specs) live _ (plan_server_adds live specs) refl refl
      (plan_server_adds-IsDesiredPart live specs)

plan_volume_adds-IsDesiredPart :
    (live : List Bytes) (vols : List VolumeSpec)
    → IsDesiredPart (volume_names vols) live (plan_volume_adds live vols)
unfolding plan_volume_adds volume_names
plan_volume_adds-IsDesiredPart live [] = IsDesiredPart-nil live
plan_volume_adds-IsDesiredPart live (v ∷ vols) =
    IsDesiredPart-cons v.name (volume_names vols) live _ (plan_volume_adds live vols) refl refl
      (plan_volume_adds-IsDesiredPart live vols)

plan_cache_adds-IsDesiredPart :
    (live : List Bytes) (specs : List ServerSpec)
    → IsDesiredPart (cache_names specs) live (plan_cache_adds live specs)
unfolding plan_cache_adds cache_names
plan_cache_adds-IsDesiredPart live [] = IsDesiredPart-nil live
plan_cache_adds-IsDesiredPart live (s ∷ specs) = elim (Bool-cases (s.role == role_builder)) [
  | inl builder ↦ rw builder (
      IsDesiredPart-cons (builder_cache_volume_short s.name) (cache_names specs) live _
        (plan_cache_adds live specs) refl refl (plan_cache_adds-IsDesiredPart live specs))
  | inr other ↦ rw other (plan_cache_adds-IsDesiredPart live specs)
]

plan_firewall_adds-IsDesiredPart :
    (live desired : List Bytes) → IsDesiredPart desired live (plan_firewall_adds live desired)
unfolding plan_firewall_adds
plan_firewall_adds-IsDesiredPart live [] = IsDesiredPart-nil live
plan_firewall_adds-IsDesiredPart live (fw ∷ desired) =
    IsDesiredPart-cons fw desired live _ (plan_firewall_adds live desired) refl refl
      (plan_firewall_adds-IsDesiredPart live desired)

-- Whatever the desired and the live servers, the server part of the plan adds exactly the desired
-- servers that are not live, deletes exactly the live ones that are not desired, lists as
-- unchanged exactly those that are both, and changes none.
pub plan_servers-IsDiff :
    (specs : List ServerSpec) (live : List Bytes)
    → IsDiff (server_names specs) live (plan_servers specs live)
unfolding plan_servers
plan_servers-IsDiff specs live =
    join-IsDiff server (server_names specs) live (sort live) (plan_server_adds live specs)
      (λ n. contains-sort n live) (plan_server_adds-IsDesiredPart live specs)

-- The volume part of the plan is the difference between the live volumes and the desired ones,
-- which are the configured volumes and a cache volume for every builder: it adds, deletes and
-- lists as unchanged exactly those names, so that a live builder cache is kept while its builder
-- is configured.
plan_volumes-IsDiff :
    (vols : List VolumeSpec) (specs : List ServerSpec) (live : List Bytes)
    → IsDiff (volume_names vols ++ cache_names specs) live (plan_volumes vols specs live)
unfolding plan_volumes
plan_volumes-IsDiff vols specs live =
    let desired = volume_names vols ++ cache_names specs in
    let adds = plan_volume_adds live vols ++ plan_cache_adds live specs in
    subst (λ es. IsDiff desired live es)
      (append_assoc (plan_volume_adds live vols) (plan_cache_adds live specs)
        (plan_deletes volume desired (sort live)))
      (join-IsDiff volume desired live (sort live) adds (λ n. contains-sort n live)
        (IsDesiredPart-append (volume_names vols) (cache_names specs) live
          (plan_volume_adds live vols) (plan_cache_adds live specs)
          (plan_volume_adds-IsDesiredPart live vols) (plan_cache_adds-IsDesiredPart live specs)))

-- The firewall part of the plan is the difference between the live firewalls and the desired
-- ones: it adds, deletes and lists as unchanged exactly those names.
plan_firewalls-IsDiff :
    (desired live : List Bytes) → IsDiff desired live (plan_firewalls desired live)
unfolding plan_firewalls
plan_firewalls-IsDiff desired live =
    join-IsDiff firewall desired live (sorted_keys live)
      (plan_firewall_adds live (sorted_keys desired)) (λ n. contains-sorted_keys n live)
      (IsDesiredPart-same (sorted_keys desired) desired live
        (plan_firewall_adds live (sorted_keys desired)) (λ n. contains-sorted_keys n desired)
        (plan_firewall_adds-IsDesiredPart live (sorted_keys desired)))
