-- ===== src/Secrets/Collected.antt =====
-- What has been collected is enough to resolve the entries.
use nvoi.Base.{
  ℕ, Bytes, Dict, Option, none, some, true, false, List, [], ◌∷◌, ◌++◌, has_byte, cut, nat_eq,
  contains, contains-append, lookup, ◌==◌, ==_iff, ◌||◌, Bool-cases, Option-cases, inl, inr, arith,
  ◌≡◌, refl, sym, ap, subst, ◌∙◌, append_assoc,
}
use nvoi.Base.Sort.{contains-sorted_keys}
use nvoi.Config.{AppConfig, ServiceDef, DatabaseDef}
use nvoi.Vars.Behind.{extract_var_refs-behind}
use nvoi.Vars.{extract_var_refs, Resolved, ok, err, unknown, unclosed, out_of_fuel, resolve_ref}
use nvoi.Vars.Outcome.{IsKnown, Explains, has_unclosed, resolve_ref-Explains}
use nvoi.Validate.Text.{parse_secret_ref}
use nvoi.Secrets.{
  collect_refs, collect_vars, service_keys, cron_keys, database_keys, credential_fields,
  collect_secret_keys, resolve_entry,
}

-- Every name of a list has a value.
abbrev pub AllKnown : Dict Bytes → List Bytes → Type 0
AllKnown sources names = (k : Bytes) → contains k names ≡ true → IsKnown sources k

closed-resolves :
    (sources : Dict Bytes) (refs : List Bytes) (r : Resolved)
    → Explains sources refs false r
    → AllKnown sources refs
    → (out : Bytes) × (r ≡ ok out)
closed-resolves sources refs (ok out) h known = (out, refl)
closed-resolves sources refs (err unclosed) h known = cc
closed-resolves sources refs (err (unknown k)) (listed, missing) known =
    absurd (ground (arith, known k listed, missing))
closed-resolves sources refs (err out_of_fuel) h known = absurd h

resolve_ref-known :
    (sources : Dict Bytes) (raw : Bytes)
    → has_unclosed raw ≡ false
    → AllKnown sources (extract_var_refs raw)
    → (out : Bytes) × (resolve_ref sources raw ≡ ok out)
resolve_ref-known sources raw closed known =
    closed-resolves sources (extract_var_refs raw) (resolve_ref sources raw)
      (subst (λ b. Explains sources (extract_var_refs raw) b (resolve_ref sources raw)) closed
        (resolve_ref-Explains sources raw))
      known

contains-collect_vars :
    (k raw : Bytes) (raws : List Bytes)
    → contains raw raws ≡ true
    → contains k (extract_var_refs raw) ≡ true
    → contains k (collect_vars raws) ≡ true
unfolding collect_vars contains
contains-collect_vars k raw [] h e = cc
contains-collect_vars k raw (x ∷ raws) h e = elim (Bool-cases (x == raw)) [
  | inl same ↦ ground (
    arith,
    e,
    contains-append k (extract_var_refs x) (collect_vars raws),
    ap (λ y. contains k (extract_var_refs y)) ((==_iff x raw).0 same),
  )
  | inr other ↦ ground (
    arith,
    contains-collect_vars k raw raws (ground (arith, h, other)) e,
    contains-append k (extract_var_refs x) (collect_vars raws),
  )
]

module _ (k name : Bytes) where
  contains-database_keys :
      (dbs : Dict DatabaseDef) (db : DatabaseDef)
      → lookup name dbs ≡ some db
      → contains k (collect_vars (credential_fields db.credentials)) ≡ true
      → contains k (database_keys dbs) ≡ true
  unfolding lookup database_keys
  contains-database_keys [] db h e = cc
  contains-database_keys ((n, d) ∷ rest) db h e = elim (Bool-cases (n == name)) [
    | inl same ↦
        let there : d ≡ db = ground (arith, h, same) in
        ground (
          arith,
          e,
          contains-append k (collect_vars (credential_fields d.credentials)) (database_keys rest),
          ap (λ x. contains k (collect_vars (credential_fields x.credentials))) there,
        )
    | inr other ↦ ground (
      arith,
      contains-database_keys rest db (ground (arith, h, other)) e,
      contains-append k (collect_vars (credential_fields d.credentials)) (database_keys rest),
    )
  ]

  contains-service_keys :
      (services : Dict ServiceDef) (svc : ServiceDef)
      → lookup name services ≡ some svc
      → contains k (collect_vars svc.env) ≡ true
      → contains k (service_keys services) ≡ true
  unfolding lookup service_keys
  contains-service_keys [] svc h e = cc
  contains-service_keys ((n, s) ∷ rest) svc h e =
      let outer =
        contains-append k (collect_refs s.secrets ++ collect_vars s.env) (service_keys rest) in
      let inner = contains-append k (collect_refs s.secrets) (collect_vars s.env) in
      elim (Bool-cases (n == name)) [
        | inl same ↦
            let there : s ≡ svc = ground (arith, h, same) in
            ground (arith, e, outer, inner, ap (λ x. contains k (collect_vars x.env)) there)
        | inr other ↦
            ground (arith, contains-service_keys rest svc (ground (arith, h, other)) e, outer)
      ]

module _ (cfg : AppConfig) (k : Bytes) where
  contains-collected : contains k (collect_secret_keys cfg) ≡ (
      contains k cfg.secrets
      || (contains k (service_keys cfg.services)
          || (contains k (cron_keys cfg.crons) || contains k (database_keys cfg.databases))))
  unfolding collect_secret_keys
  contains-collected =
      let keys3 = cron_keys cfg.crons ++ database_keys cfg.databases in
      let keys2 = service_keys cfg.services ++ keys3 in
      ground (
        arith,
        contains-sorted_keys k (cfg.secrets ++ keys2),
        contains-append k cfg.secrets keys2,
        contains-append k (service_keys cfg.services) keys3,
        contains-append k (cron_keys cfg.crons) (database_keys cfg.databases),
      )

-- If every key that `collectSecretKeys` lists has a value, each field of each database's
-- credentials that has no unclosed `${` resolves.
collect_secret_keys-database :
    (cfg : AppConfig) (sources : Dict Bytes) (name raw : Bytes) (db : DatabaseDef)
    → AllKnown sources (collect_secret_keys cfg)
    → lookup name cfg.databases ≡ some db
    → contains raw (credential_fields db.credentials) ≡ true
    → has_unclosed raw ≡ false
    → (out : Bytes) × (resolve_ref sources raw ≡ ok out)
collect_secret_keys-database cfg sources name raw db known found field closed =
    resolve_ref-known sources raw closed (λ k listed. known k (
      ground (
        arith,
        contains-collected cfg k,
        contains-database_keys k name cfg.databases db found
            (contains-collect_vars k raw (credential_fields db.credentials) field listed),
      )))

cut-join : (c : ℕ) (s a b : Bytes) → cut c s ≡ some (a, b) → s ≡ a ++ (c ∷ b)
unfolding cut
cut-join c [] a b h = cc
cut-join c (x ∷ s) a b h = elim (Bool-cases (nat_eq x c)) [
  | inl here ↦ ground (arith, h, here)
  | inr later ↦ elim (Option-cases (cut c s)) [
    | inl missing ↦ absurd (ground (arith, h, later, missing))
    | inr ((a', b'), found) ↦ ground (arith, h, later, found, cut-join c s a' b' found)
  ]
]

has_byte-end : (t : Bytes) → has_byte b'$' t ≡ false → has_byte b'$' (t ++ b'=' ∷ []) ≡ false
unfolding has_byte
has_byte-end [] h = refl
has_byte-end (c ∷ t) h = ground (arith, h, has_byte-end t)

-- The references of `KEY=VALUE` are those of the value, if the key has no `$`.
extract_var_refs-value :
    (entry key raw : Bytes)
    → cut b'=' entry ≡ some (key, raw)
    → has_byte b'$' key ≡ false
    → extract_var_refs entry ≡ extract_var_refs raw
unfolding has_byte
extract_var_refs-value entry key raw split plain =
    ap extract_var_refs (cut-join b'=' entry key raw split ∙ sym (append_assoc key (b'=' ∷ []) raw))
    ∙ extract_var_refs-behind (key ++ b'=' ∷ []) raw (has_byte-end key plain)

parse_secret_ref-split :
    (entry key raw : Bytes) → cut b'=' entry ≡ some (key, raw) → parse_secret_ref entry ≡ (key, raw)
unfolding parse_secret_ref
parse_secret_ref-split entry key raw h =
    ap (λ (o : Option (Bytes × Bytes)). elim o [ none ↦ (entry, entry) | some r ↦ r ]) h

resolve_entry-split :
    (sources : Dict Bytes) (entry key raw out : Bytes)
    → cut b'=' entry ≡ some (key, raw)
    → resolve_ref sources raw ≡ ok out
    → resolve_entry sources entry ≡ (key, ok out)
unfolding resolve_entry
resolve_entry-split sources entry key raw out h e =
    ap (λ (p : Bytes × Bytes). (p.0, resolve_ref sources p.1))
      (parse_secret_ref-split entry key raw h)
    ∙ ap (λ r. (key, r)) e

-- If every key that `collectSecretKeys` lists has a value, each `KEY=VALUE` entry of a service's
-- `env` resolves, where the key has no `$` and the value no unclosed `${`.
pub collect_secret_keys-env :
    (cfg : AppConfig) (sources : Dict Bytes) (name entry key raw : Bytes) (svc : ServiceDef)
    → AllKnown sources (collect_secret_keys cfg)
    → lookup name cfg.services ≡ some svc
    → contains entry svc.env ≡ true
    → cut b'=' entry ≡ some (key, raw)
    → has_byte b'$' key ≡ false
    → has_unclosed raw ≡ false
    → (out : Bytes) × (resolve_entry sources entry ≡ (key, ok out))
collect_secret_keys-env cfg sources name entry key raw svc known found listed split plain closed =
    let refs = extract_var_refs-value entry key raw split plain in
    let (out, resolves) = resolve_ref-known sources raw closed (λ k here. known k (
      ground (
        arith,
        contains-collected cfg k,
        contains-service_keys k name cfg.services svc found
            (contains-collect_vars k entry svc.env listed (rw refs here)),
      ))) in
    (out, resolve_entry-split sources entry key raw out split resolves)
