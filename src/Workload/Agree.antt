-- ===== src/Workload/Agree.antt =====
-- The keys that a deploy writes to a workload's secret are those that the plan wants.
use nvoi.Base.{
  ℕ, Bytes, bytes, Dict, some, Bool, true, false, List, [], ◌∷◌, ◌++◌, insert, lookup, has_key,
  has_byte, has_prefix, cut, contains, contains-append, All, ◌==◌, ==_iff, ◌||◌, is_empty, is_some,
  arith, ◌≡◌, refl, sym, ap, ◌∙◌, Option-cases, inl, inr, ◌⊎◌, has_key-lookup,
}
use nvoi.Naming.{database_env_name}
use nvoi.Vars.{Resolved, ok, err, RefError}
use nvoi.Secrets.{resolve_entry}
use nvoi.Validate.Text.{parse_secret_ref, parse_database_ref}
use nvoi.Plan.Keys.{
  storage_secret_keys, secret_names, storage_names, database_names, desired_secret_keys, key_part,
}
use nvoi.Workload.Credentials.{
  Credentials, no_credentials, with_value, Collected, collected, unresolved, normalized,
  resolve_secret_entries, take_value, take_keys, expand_storage_creds, expand_database_creds,
  workload_credentials, database_key, on_value, expand,
}

has_key-insert :
    (p q v : Bytes) (m : Dict Bytes) → has_key q (insert p v m) ≡ (p == q || has_key q m)
unfolding has_key insert
has_key-insert p q v [] = refl
has_key-insert p q v ((j, w) ∷ m) =
    ground (arith, has_key-insert p q v m, ==_iff j p, ==_iff j q, ==_iff p q)

cut-without : (c : ℕ) (s t : Bytes) → has_byte c s ≡ false → cut c (s ++ c ∷ t) ≡ some (s, t)
unfolding cut has_byte
cut-without c [] t h = ground arith
cut-without c (x ∷ s) t h = ground (arith, h, cut-without c s t)

is_some-cut : (c : ℕ) (s : Bytes) → is_some (cut c s) ≡ has_byte c s
unfolding cut has_byte
is_some-cut c [] = refl
is_some-cut c (x ∷ s) = ground (arith, is_some-cut c s)

-- Without `=` in front, what stands before the first `=` is not empty.
cut-front :
    (e a b : Bytes)
    → has_prefix (bytes "=") e ≡ false
    → cut b'=' e ≡ some (a, b)
    → is_empty a ≡ false
unfolding cut has_prefix
cut-front [] a b h k = absurd (ground (arith, k))
cut-front (x ∷ s) a b h k = ground (arith, h, k)

key_part-front : (e a b : Bytes) → is_empty a ≡ false → key_part e (some (a, b)) ≡ a
key_part-front e [] b h = absurd (ground (arith, h))
key_part-front e (c ∷ a) b h = refl

parse_secret_ref-cut : (r a b : Bytes) → cut b'=' r ≡ some (a, b) → (parse_secret_ref r).0 ≡ a
unfolding parse_secret_ref
parse_secret_ref-cut r a b h = rw (parse_secret_ref, h) refl

normalized-bare :
    (e : Bytes) → has_byte b'=' e ≡ false → normalized e ≡ e ++ b'=' ∷ (bytes "$" ++ e)
unfolding normalized
normalized-bare e h = rw h refl

normalized-marked : (e : Bytes) → has_byte b'=' e ≡ true → normalized e ≡ e
unfolding normalized
normalized-marked e h = rw h refl

-- The key of an entry, for the plan and for the deploy.
key_part-normalized :
    (e : Bytes)
    → has_prefix (bytes "=") e ≡ false
    → (parse_secret_ref (normalized e)).0 ≡ key_part e (cut b'=' e)
key_part-normalized e h = elim (Option-cases (cut b'=' e)) [
  | inl without ↦
      let bare : has_byte b'=' e ≡ false = sym (is_some-cut b'=' e) ∙ ap is_some without in
      ap (λ r. (parse_secret_ref r).0) (normalized-bare e bare)
      ∙ parse_secret_ref-cut (e ++ b'=' ∷ (bytes "$" ++ e)) e (bytes "$" ++ e)
          (cut-without b'=' e (bytes "$" ++ e) bare)
      ∙ rw without refl
  | inr ((a, b), split) ↦
      let marked : has_byte b'=' e ≡ true = sym (is_some-cut b'=' e) ∙ ap is_some split in
      ap (λ r. (parse_secret_ref r).0) (normalized-marked e marked)
      ∙ parse_secret_ref-cut e a b split
      ∙ rw split (sym (key_part-front e a b (cut-front e a b h split)))
]

Resolved-cases : (x : Resolved) → ((v : Bytes) × (x ≡ ok v)) ⊎ ((e : RefError) × (x ≡ err e))
Resolved-cases (ok v) = inl (v, refl)
Resolved-cases (err e) = inr (e, refl)

abbrev pub is_collected : Collected → Bool
is_collected (collected c) = true
is_collected (unresolved e) = false

abbrev pub kvs_of : Collected → Dict Bytes
kvs_of (collected c) = c.kvs
kvs_of (unresolved e) = []

All-split : (P : Bytes → Type 0) (xs ys : List Bytes) → All P (xs ++ ys) → All P xs × All P ys
All-split P [] ys h = (tt, h)
All-split P (x ∷ xs) ys (p, h) = let (a, b) = All-split P xs ys h in ((p, a), b)

module _ (sources : Dict Bytes) (k : Bytes) where
  -- Each step adds one key.
  resolve_secret_entries-ok :
      (c : Credentials) (e v : Bytes) (secrets : List Bytes)
      → (resolve_entry sources (normalized e)).1 ≡ ok v
      → resolve_secret_entries sources c (e ∷ secrets)
        ≡ resolve_secret_entries sources
            (with_value (parse_secret_ref (normalized e)).0 v c)
            secrets
  unfolding resolve_secret_entries resolve_entry
  resolve_secret_entries-ok c e v secrets h =
      ap
        (λ x. on_value x (λ value.
          resolve_secret_entries sources (with_value (parse_secret_ref (normalized e)).0 value c)
            secrets))
        h

  resolve_secret_entries-err :
      (c : Credentials) (e : Bytes) (x : RefError) (secrets : List Bytes)
      → (resolve_entry sources (normalized e)).1 ≡ err x
      → resolve_secret_entries sources c (e ∷ secrets) ≡ unresolved x
  unfolding resolve_secret_entries resolve_entry
  resolve_secret_entries-err c e x secrets h =
      ap
        (λ y. on_value y (λ value.
          resolve_secret_entries sources (with_value (parse_secret_ref (normalized e)).0 value c)
            secrets))
        h

  has_key-resolve :
      (c : Credentials) (secrets : List Bytes)
      → All (λ e. has_prefix (bytes "=") e ≡ false) secrets
      → is_collected (resolve_secret_entries sources c secrets) ≡ true
      → has_key k (kvs_of (resolve_secret_entries sources c secrets))
        ≡ (contains k (secret_names secrets) || has_key k c.kvs)
  unfolding secret_names contains resolve_secret_entries
  has_key-resolve c [] h r = refl
  has_key-resolve c (e ∷ secrets) (p, h) r =
      elim (Resolved-cases (resolve_entry sources (normalized e)).1) [
        | inl (v, found) ↦
            let step = resolve_secret_entries-ok c e v secrets found in
            let d = with_value (parse_secret_ref (normalized e)).0 v c in
            ap (λ x. has_key k (kvs_of x)) step
            ∙ has_key-resolve d secrets h (ap is_collected (sym step) ∙ r)
            ∙ ground (
              arith,
              has_key-insert (parse_secret_ref (normalized e)).0 k v c.kvs,
              key_part-normalized e p,
            )
        | inr (x, lost) ↦ absurd (
            ground
              (arith, ap is_collected (sym (resolve_secret_entries-err c e x secrets lost)) ∙ r))
      ]

  has_key-take_keys :
      (keys : List Bytes) (c : Credentials)
      → All (λ key. has_key key sources ≡ true) keys
      → has_key k (take_keys sources keys c).kvs ≡ (contains k keys || has_key k c.kvs)
  unfolding take_keys contains
  has_key-take_keys [] c h = refl
  has_key-take_keys (key ∷ keys) c (p, h) =
      let (v, found) = has_key-lookup key sources p in
      has_key-take_keys keys (take_value sources key (lookup key sources) c) h
      ∙ rw found (ground (arith, has_key-insert key k v c.kvs))

  has_key-storage :
      (storages : List Bytes) (c : Credentials)
      → All (λ key. has_key key sources ≡ true) (storage_names storages)
      → has_key k (expand_storage_creds sources storages c).kvs
        ≡ (contains k (storage_names storages) || has_key k c.kvs)
  unfolding expand_storage_creds storage_names contains
  has_key-storage [] c h = refl
  has_key-storage (s ∷ storages) c h =
      let (own, later) =
        All-split (λ key. has_key key sources ≡ true) (storage_secret_keys s)
          (storage_names storages) h in
      has_key-storage storages (take_keys sources (storage_secret_keys s) c) later
      ∙ ground (
        arith,
        has_key-take_keys (storage_secret_keys s) c own,
        contains-append k (storage_secret_keys s) (storage_names storages),
      )

  has_key-databases :
      (databases : List Bytes) (c : Credentials)
      → All (λ d. has_key (database_env_name (parse_database_ref d).1) sources ≡ true) databases
      → has_key k (expand_database_creds sources databases c).kvs
        ≡ (contains k (database_names databases) || has_key k c.kvs)
  unfolding expand_database_creds database_names contains
  has_key-databases [] c h = refl
  has_key-databases (d ∷ databases) c (p, h) =
      let (v, found) = has_key-lookup (database_env_name (parse_database_ref d).1) sources p in
      has_key-databases databases
        (take_value sources (database_key sources d)
          (lookup (database_env_name (parse_database_ref d).1) sources) c)
        h
      ∙ rw found (ground (arith, has_key-insert (database_key sources d) k v c.kvs))

  expanded :
      (storages databases : List Bytes) (b : Bool)
      → All (λ key. has_key key sources ≡ true) (storage_names storages)
      → All (λ d. has_key (database_env_name (parse_database_ref d).1) sources ≡ true) databases
      → (r : Collected) → (is_collected r ≡ true → has_key k (kvs_of r) ≡ b)
      → is_collected (expand sources storages databases r) ≡ true
      → has_key k (kvs_of (expand sources storages databases r))
        ≡ (contains k (database_names databases) || (contains k (storage_names storages) || b))
  expanded storages databases b ht hd (unresolved e) h done = absurd (ground (arith, done))
  expanded storages databases b ht hd (collected c) h done =
      has_key-databases databases (expand_storage_creds sources storages c) hd
      ∙ ground (arith, has_key-storage storages c ht, h refl)

  -- Where the secrets resolve, none of them begins with `=`, and the sources have the storage
  -- credentials and the database addresses, the secret that a deploy writes for a workload has
  -- exactly the keys that the plan wants for it.
  pub workload_credentials-agrees :
      (secrets storages databases : List Bytes)
      → All (λ e. has_prefix (bytes "=") e ≡ false) secrets
      → All (λ key. has_key key sources ≡ true) (storage_names storages)
      → All (λ d. has_key (database_env_name (parse_database_ref d).1) sources ≡ true) databases
      → is_collected (workload_credentials sources secrets storages databases) ≡ true
      → has_key k (kvs_of (workload_credentials sources secrets storages databases))
        ≡ contains k (desired_secret_keys secrets storages databases)
  unfolding workload_credentials desired_secret_keys has_key
  workload_credentials-agrees secrets storages databases hs ht hd done =
      expanded storages databases (contains k (secret_names secrets)) ht hd
        (resolve_secret_entries sources no_credentials secrets)
        (λ r. has_key-resolve no_credentials secrets hs r ∙ ground arith) done
      ∙ ground (
        arith,
        contains-append k (secret_names secrets)
            (storage_names storages ++ database_names databases),
        contains-append k (storage_names storages) (database_names databases),
      )
