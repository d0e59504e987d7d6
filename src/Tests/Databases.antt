-- ===== src/Tests/Databases.antt =====
-- Databases that the plan reads from the names of secrets.
use nvoi.Base.{bytes, [], ◌∷◌, ◌++◌, none, ◌≡◌, refl, keys, index_of}
use nvoi.Naming.{Names, base, kube_database_credentials}
use nvoi.Plan.Diff.{IsDiff}
use nvoi.Plan.Databases.{
  found, panics, marker, non_empty, live_database, database_entries, database_entries-IsDiff,
  live_database-credentials, live_database-app_db,
}
use nvoi.Tests.Samples.{cfg}

abbrev shop : Names
shop = record { app = bytes "shop"; env = bytes "prod" }

database_entries-IsDiff_example :
    IsDiff
      (keys cfg.databases)
      (bytes "old" ∷ [])
      (database_entries cfg.databases (bytes "old" ∷ []))
database_entries-IsDiff_example = database_entries-IsDiff cfg.databases (bytes "old" ∷ [])

no_marker : index_of (base shop ++ bytes "-db") marker ≡ none
unfolding index_of base
no_marker = refl

live_database-credentials_example :
    live_database (kube_database_credentials shop (bytes "main")) ≡ found (bytes "main")
live_database-credentials_example = live_database-credentials shop b'm' (bytes "ain") no_marker

live_database-app_db_example :
    live_database
      (kube_database_credentials (record { app = bytes "db"; env = bytes "prod" }) (bytes "main"))
    ≡ non_empty (bytes "prod" ++ marker ++ bytes "main")
live_database-app_db_example = live_database-app_db (bytes "prod") (bytes "main")

crossing : live_database (bytes "x-db-credentials") ≡ panics
unfolding live_database
crossing = refl
