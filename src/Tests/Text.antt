-- ===== src/Tests/Text.antt =====
-- References, names and images.
use nvoi.Base.{
  ℕ, Bytes, bytes, Dict, List, [], ◌∷◌, ◌++◌, some, Option, Bool, true, false, ◌≡◌, ◌≢◌, ◌↔◌, ◌⊎◌,
  refl, All, has_byte, is_empty,
}
use nvoi.Vars.{extract_var_refs, resolve_ref, ok, err, unknown}
use nvoi.Vars.Outcome.{Explains, has_unclosed, resolve_ref-Explains}
use nvoi.Vars.Pieces.{Piece, plain, ref, render, IsPiece, expand, resolve_ref-render}
use nvoi.Naming.{Names}
use nvoi.Naming.Dns.{dns1123, IsLabel, dns1123_iff}
use nvoi.Image.{
  resolved, resolve_image, resolve_service_image, fits, hash_pattern, strip_deploy_hash,
}
use nvoi.Image.Rebuild.{stripped, resolve_image-stripped}
use nvoi.Tests.Samples.{cfg, api_service}

abbrev sources : Dict Bytes
sources = (bytes "USER", bytes "shop") ∷ (bytes "PASS", bytes "s3cret") ∷ []

abbrev url : Bytes
url = bytes "pg://${USER}:$PASS@db"

url_refs : extract_var_refs url ≡ bytes "USER" ∷ bytes "PASS" ∷ []
unfolding extract_var_refs nvoi.Base.cut
url_refs = refl

url_resolved : resolve_ref sources url ≡ ok (bytes "pg://shop:s3cret@db")
unfolding resolve_ref nvoi.Base.cut nvoi.Base.lookup nvoi.Base.◌==◌
url_resolved = refl

url_unknown : resolve_ref sources (bytes "$USER-$HOST") ≡ err (unknown (bytes "HOST"))
unfolding resolve_ref nvoi.Base.lookup nvoi.Base.◌==◌
url_unknown = refl

resolve_ref-Explains_example :
    Explains sources (extract_var_refs url) (has_unclosed url) (resolve_ref sources url)
resolve_ref-Explains_example = resolve_ref-Explains sources url

abbrev pieces : List Piece
pieces = plain (bytes "pg://") ∷ ref (bytes "USER") ∷ plain (bytes "@db") ∷ []

pieces-IsPiece : All IsPiece pieces
unfolding has_byte
pieces-IsPiece = (refl, (refl, (refl, tt)))

pieces-expand : expand sources pieces ≡ some (bytes "pg://shop@db")
unfolding nvoi.Base.lookup nvoi.Base.◌==◌
pieces-expand = refl

resolve_ref-render_example : resolve_ref sources (render pieces) ≡ ok (bytes "pg://shop@db")
resolve_ref-render_example =
    resolve_ref-render sources pieces (bytes "pg://shop@db") pieces-IsPiece pieces-expand

dns1123_iff_example :
    (dns1123 (bytes "web-1") ≡ true)
    ↔ ((c : ℕ) × (rest : Bytes) × (bytes "web-1" ≡ c ∷ rest) × IsLabel c rest)
dns1123_iff_example = dns1123_iff (bytes "web-1")

dns1123_upper : dns1123 (bytes "Web") ≡ false
unfolding dns1123
dns1123_upper = refl

abbrev shop : Names
shop = record { app = bytes "shop"; env = bytes "prod" }

no_hyphen : has_byte b'-' (bytes "shop") ≡ false
unfolding has_byte
no_hyphen = refl

abbrev hash : Bytes
hash = bytes "20260417-143022"

abbrev no_hash : Bytes
no_hash = bytes "00000000-000000"

api_image :
    resolve_image cfg (bytes "api") hash ≡ resolved (bytes "ghcr.io/org/api:v2-20260417-143022")
unfolding resolve_image nvoi.Base.◌==◌ resolve_service_image has_byte
api_image = refl

web_image : resolve_image cfg (bytes "web") hash ≡ resolved (bytes "nginx")
unfolding resolve_image nvoi.Base.◌==◌ resolve_service_image
web_image = refl

api_stripped :
    strip_deploy_hash (bytes "ghcr.io/org/api:v2-20260417-143022") ≡ bytes "ghcr.io/org/api:v2"
unfolding strip_deploy_hash
api_stripped = refl

hash-fits : fits hash_pattern hash ≡ true
unfolding fits
hash-fits = refl

no_hash-fits : fits hash_pattern no_hash ≡ true
unfolding fits
no_hash-fits = refl

resolve_image-stripped_example :
    stripped (resolve_image cfg (bytes "api") hash)
    ≡ stripped (resolve_image cfg (bytes "api") no_hash)
resolve_image-stripped_example =
    resolve_image-stripped cfg (bytes "api") hash no_hash hash-fits no_hash-fits

abbrev api_reference : Bytes
api_reference = bytes "ghcr.io/org/api:v2-20260417-143022"

api_resolved : resolve_service_image cfg.registry api_service hash ≡ resolved api_reference
unfolding resolve_service_image nvoi.Base.◌==◌ has_byte
api_resolved = refl
