-- ===== src/Tests/Secrets.antt =====
-- Collected keys.
use nvoi.Base.{
  Bytes, bytes, Dict, List, [], ◌∷◌, none, some, true, false, contains, lookup, cut, has_byte, ◌≡◌,
  refl, arith, ==_iff, ◌==◌, ◌||◌,
}
use nvoi.Config.{AppConfig}
use nvoi.Vars.{ok}
use nvoi.Vars.Outcome.{has_unclosed}
use nvoi.Secrets.{collect_secret_keys, credential_fields, resolve_entry}
use nvoi.Secrets.Collected.{AllKnown, collect_secret_keys-env}
use nvoi.Tests.Samples.{cfg, web_service, main_database}

abbrev env_entry : Bytes
env_entry = bytes "HOST=http://$H:80"

abbrev with_env : AppConfig
with_env = record cfg { services = (bytes "web", record web_service { env = env_entry ∷ [] }) ∷ [] }

collected : collect_secret_keys with_env ≡ bytes "H" ∷ bytes "P" ∷ bytes "U" ∷ []
unfolding collect_secret_keys nvoi.Base.Sort.sorted_keys ◌==◌ nvoi.Secrets.service_keys
    nvoi.Secrets.collect_refs nvoi.Secrets.collect_vars nvoi.Secrets.cron_keys
    nvoi.Secrets.database_keys
collected = refl

abbrev sources : Dict Bytes
sources = (bytes "H", bytes "db") ∷ (bytes "P", bytes "s3cret") ∷ (bytes "U", bytes "shop") ∷ []

listed_known : AllKnown sources (bytes "H" ∷ bytes "P" ∷ bytes "U" ∷ [])
unfolding contains lookup
listed_known k h = ground (arith, h)

collected-AllKnown : AllKnown sources (collect_secret_keys with_env)
collected-AllKnown = rw collected listed_known

database_found : lookup (bytes "main") with_env.databases ≡ some main_database
unfolding lookup ◌==◌
database_found = refl

user_field : contains (bytes "$U") (credential_fields main_database.credentials) ≡ true
unfolding contains ◌==◌
user_field = refl

web_found :
    lookup (bytes "web") with_env.services ≡ some (record web_service { env = env_entry ∷ [] })
unfolding lookup ◌==◌
web_found = refl

entry_listed : contains env_entry (env_entry ∷ []) ≡ true
unfolding contains ◌==◌
entry_listed = refl

entry_split : cut b'=' env_entry ≡ some (bytes "HOST", bytes "http://$H:80")
unfolding cut
entry_split = refl

plain_key : has_byte b'$' (bytes "HOST") ≡ false
unfolding has_byte
plain_key = refl

value_closed : has_unclosed (bytes "http://$H:80") ≡ false
value_closed = refl

collect_secret_keys-env_example :
    (out : Bytes) × (resolve_entry sources env_entry ≡ (bytes "HOST", ok out))
collect_secret_keys-env_example =
    collect_secret_keys-env with_env sources (bytes "web") env_entry (bytes "HOST")
      (bytes "http://$H:80") (record web_service { env = env_entry ∷ [] }) collected-AllKnown
      web_found entry_listed entry_split plain_key value_closed
