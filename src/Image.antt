-- ===== src/Image.antt =====
-- internal/reconcile/image.go: the image reference of a service; and stripDeployHash of
-- internal/reconcile/plan.go, which takes the deploy hash off again.
pub mod Rebuild
use nvoi.Base.{
  ℕ, zero, suc, Bytes, bytes, Dict, Option, none, some, Bool, true, false, List, [], ◌∷◌, ◌++◌,
  if◌then◌else◌, ◌&&◌, ◌||◌, not, nat_eq, lookup, has_key, is_empty, is_some, is_digit, cut,
  cut_last, index_of,
}
use nvoi.Config.{AppConfig, ServiceDef, RegistryDef, build_context}
use nvoi.Validate.Text.{image_registry_host}

pub data ImageResult : Type 0 where
  resolved : Bytes → ImageResult
  undefined_service no_image no_registry ambiguous empty_hash : ImageResult
  unknown_registry : (host : Bytes) → ImageResult

-- strings.Contains(image, "@sha256:")
unfoldable pub is_digest : Bytes → Bool
unfolding index_of
is_digest image = is_some (index_of image (bytes "@sha256:"))

-- What stands behind the last slash.
abbrev last_piece : Bytes → Bytes
last_piece image = elim (cut_last b'/' image) [ none ↦ image | some r ↦ r.1 ]

abbrev tag_of : Option (Bytes × Bytes) → Bytes
tag_of none = []
tag_of (some r) = r.1

unfoldable pub image_tag : Bytes → Bytes
unfolding is_digest cut cut_last
image_tag image = if is_digest image then [] else tag_of (cut b':' (last_piece image))

-- The HOST part of ResolveImage: an image with a host needs that host's entry, and one without
-- gets the host of the only registry.
unfoldable pub with_host : Dict RegistryDef → (image : Bytes) → ImageResult
unfolding image_registry_host has_key
with_host registry image =
    if not (is_empty (image_registry_host image))
    then (if has_key (image_registry_host image) registry
        then resolved image
        else unknown_registry (image_registry_host image))
    else elim registry [
      | [] ↦ no_registry
      | h ∷ rest ↦ if is_empty rest then resolved (h.0 ++ bytes "/" ++ image) else ambiguous
    ]

-- The hash behind the tag, or as the tag where there is none.
abbrev pub tagged : (tag image hash : Bytes) → Bytes
tagged [] image hash = image ++ bytes ":" ++ hash
tagged (c ∷ tag) image hash = image ++ bytes "-" ++ hash

-- The TAG part of ResolveImage.
unfoldable pub with_tag : (image hash : Bytes) → ImageResult
unfolding is_digest image_tag
with_tag image hash =
    if is_empty hash
    then empty_hash
    else if is_digest image
    then resolved image
    else resolved (tagged (image_tag image) image hash)

-- The first part's error, or the second part on its image.
abbrev pub and_then : ImageResult → (Bytes → ImageResult) → ImageResult
and_then (resolved image) next = next image
and_then undefined_service next = undefined_service
and_then no_image next = no_image
and_then no_registry next = no_registry
and_then ambiguous next = ambiguous
and_then empty_hash next = empty_hash
and_then (unknown_registry host) next = unknown_registry host

unfoldable pub resolve_service_image : Dict RegistryDef → ServiceDef → (hash : Bytes) → ImageResult
unfolding with_host with_tag
resolve_service_image registry svc hash =
    if is_empty (build_context svc.build)
    then resolved svc.image
    else if is_empty svc.image
    then no_image
    else and_then (with_host registry svc.image) (λ image. with_tag image hash)

-- On the entry of the map; `none` is a missing one.
abbrev pub resolve_entry : Dict RegistryDef → Option ServiceDef → (hash : Bytes) → ImageResult
resolve_entry registry none hash = undefined_service
resolve_entry registry (some svc) hash = resolve_service_image registry svc hash

unfoldable pub resolve_image : AppConfig → (svc_name hash : Bytes) → ImageResult
unfolding lookup
resolve_image cfg svc_name hash = resolve_entry cfg.registry (lookup svc_name cfg.services) hash

-- Whether a text is one character for each of the tests, in order.
unfoldable pub fits : List (ℕ → Bool) → Bytes → Bool
fits [] s = is_empty s
fits (p ∷ ps) [] = false
fits (p ∷ ps) (c ∷ s) = p c && fits ps s

abbrev pub digits : ℕ → List (ℕ → Bool) → List (ℕ → Bool)
digits zero ps = ps
digits (suc n) ps = is_digit ∷ digits n ps

-- A deploy hash, `\d{8}-\d{6}`, and what stripDeployHash removes, `[-:]\d{8}-\d{6}`.
abbrev pub hash_pattern : List (ℕ → Bool)
hash_pattern = digits 8 ((λ c. nat_eq c b'-') ∷ digits 6 [])

abbrev pub suffix_pattern : List (ℕ → Bool)
suffix_pattern = (λ c. nat_eq c b'-' || nat_eq c b':') ∷ hash_pattern

-- The pattern has one length and ends at the end of the text, so it matches at most once.
unfoldable pub strip_deploy_hash : Bytes → Bytes
unfolding fits
strip_deploy_hash [] = []
strip_deploy_hash (c ∷ s) = if fits suffix_pattern (c ∷ s) then [] else c ∷ strip_deploy_hash s
