-- ===== src/Naming/Distinct.antt =====
-- Which names of the naming scheme are distinct, and which are not.
use nvoi.Base.{
  Bytes, bytes, false, [], ◌∷◌, ◌++◌, ◌==◌, has_byte, arith, ◌≡◌, ◌≢◌, sym, ap, ◌∙◌, append_assoc,
}
use nvoi.Naming.{
  Names, base, master_firewall, worker_firewall, builder_firewall, firewall_for_role, role_master,
  role_builder, role_worker, builder_cache_volume, volume, bucket, database,
  kube_database_backup_bucket,
}
use mathlib.Core.List.{append_cancel_left}

-- Text before the first hyphen and after it.
until_hyphen :
    (a1 a2 b1 b2 : Bytes)
    → has_byte b'-' a1 ≡ false
    → has_byte b'-' a2 ≡ false
    → a1 ++ (b'-' ∷ b1) ≡ a2 ++ (b'-' ∷ b2)
    → (a1 ≡ a2) × (b1 ≡ b2)
unfolding has_byte
until_hyphen [] [] b1 b2 h k e = ground (arith, e)
until_hyphen [] (c ∷ a2) b1 b2 h k e = absurd (ground (arith, e, k))
until_hyphen (c ∷ a1) [] b1 b2 h k e = absurd (ground (arith, e, h))
until_hyphen (c ∷ a1) (d ∷ a2) b1 b2 h k e = ground (arith, until_hyphen a1 a2 b1 b2, e, h, k)

base-as_parts : (n : Names) → base n ≡ bytes "nvoi-" ++ (n.app ++ (b'-' ∷ n.env))
unfolding base
base-as_parts n =
    append_assoc (bytes "nvoi-" ++ n.app) (bytes "-") n.env
    ∙ append_assoc (bytes "nvoi-") n.app (b'-' ∷ n.env)

-- Where no app name has a hyphen, two deployments with the same base have the same app and the
-- same env.
base-injective :
    (m n : Names)
    → has_byte b'-' m.app ≡ false
    → has_byte b'-' n.app ≡ false
    → base m ≡ base n
    → (m.app ≡ n.app) × (m.env ≡ n.env)
base-injective m n h k e =
    until_hyphen m.app n.app m.env n.env h k
      (append_cancel_left (bytes "nvoi-") _ _ (sym (base-as_parts m) ∙ e ∙ base-as_parts n))

-- Without that condition it does not hold: moving a hyphenated part from the end of the app to the
-- front of the env gives the same base, so the same resources.
base-shared :
    (a b c : Bytes)
    → base (record { app = a ++ bytes "-" ++ b; env = c })
      ≡ base (record { app = a; env = b ++ bytes "-" ++ c })
base-shared a b c =
    base-as_parts (record { app = a ++ bytes "-" ++ b; env = c })
    ∙ ap (λ t. bytes "nvoi-" ++ t)
        (append_assoc (a ++ bytes "-") b (b'-' ∷ c)
          ∙ append_assoc a (bytes "-") (b ++ (b'-' ∷ c))
          ∙ ap (λ t. a ++ (b'-' ∷ t)) (sym (append_assoc b (bytes "-") c)))
    ∙ sym (base-as_parts (record { app = a; env = b ++ bytes "-" ++ c }))

-- The firewalls of the three roles have three different names, whatever the app and the env.
pub firewall_for_role-distinct :
    (n : Names)
    → (firewall_for_role n role_master ≢ firewall_for_role n role_worker)
      × (firewall_for_role n role_master ≢ firewall_for_role n role_builder)
      × (firewall_for_role n role_worker ≢ firewall_for_role n role_builder)
unfolding firewall_for_role master_firewall worker_firewall builder_firewall ◌==◌
firewall_for_role-distinct n = (
  λ e. absurd (ground (arith, append_cancel_left (base n) _ _ e)),
  λ e. absurd (ground (arith, append_cancel_left (base n) _ _ e)),
  λ e. absurd (ground (arith, append_cancel_left (base n) _ _ e)),
)

-- A storage bucket named `db-x-backups` has the name of the backup bucket of database `x`, and a
-- volume named `x-builder-cache` that of the cache volume of builder `x`, whatever `x` is.
bucket-shared :
    (n : Names) (x : Bytes)
    → (bucket n (bytes "db-" ++ x ++ bytes "-backups") ≡ kube_database_backup_bucket n x)
      × (volume n (x ++ bytes "-builder-cache") ≡ builder_cache_volume n x)
unfolding bucket kube_database_backup_bucket database volume builder_cache_volume
bucket-shared n x = (
  sym (append_assoc (base n ++ bytes "-") (bytes "db-" ++ x) (bytes "-backups"))
      ∙ ap (λ t. t ++ bytes "-backups")
          (sym (append_assoc (base n ++ bytes "-") (bytes "db-") x)
            ∙ ap (λ t. t ++ x) (append_assoc (base n) (bytes "-") (bytes "db-"))),
  sym (append_assoc (base n ++ bytes "-") x (bytes "-builder-cache")),
)
