-- ===== src/Workload/Exact.antt =====
-- What upsertServiceSecrets of internal/reconcile/services.go leaves in the cluster.
use nvoi.Base.{
  Bytes, Dict, none, some, Bool, true, false, List, [], ◌∷◌, has_key, is_empty, ◌≢◌, lookup, keys,
  copy_over, remove_key, lookup-copy_over, lookup-remove_key, lookup-insert, HasDistinctKeys,
  contains, contains-keys, lookup-no_key, arith, ◌≡◌, refl, sym, ap, ◌∙◌, subst, Bool-cases, inl,
  inr, ◌==◌, ==_iff, ==_refl,
}
use nvoi.Naming.{kube_service_secrets, label_nvoi_owner}
use nvoi.Kube.Secrets.{
  Secret, Read, missing, broken, found, SecretApi, Outcome, done, update_failed, create_failed,
  if_done, ensure_secret, delete_secret_key, list_secret_keys, ensure_on, delete_key_on,
  owner_labels,
}
use nvoi.Plan.Services.{owner_services}
use nvoi.Workload.Upsert.{drop_keys, drop_listed, drop_after, upsert_service_secrets}

-- An API server that answers: no read fails, a secret that is missing can be created, one that is
-- there can be updated, and a read gives what the write put.
pub record Answers (api : SecretApi) : Type 0 where
  pub reads : (s : api.State) (n : Bytes) → api.get s n ≢ broken
  pub creates :
      (s : api.State) (n : Bytes) (x : Secret)
      → api.get s n ≡ missing
      → (api.create s n x).0 ≡ true × (api.get (api.create s n x).1 n ≡ found x)
  pub updates :
      (s : api.State) (n : Bytes) (old x : Secret)
      → api.get s n ≡ found old
      → (api.update s n x).0 ≡ true × (api.get (api.update s n x).1 n ≡ found x)

-- A secret that has exactly the given values, for the services.
pub record Holds (api : SecretApi) (s : api.State) (n : Bytes) (kvs : Dict Bytes) : Type 0 where
  pub secret : Secret
  pub stored : api.get s n ≡ found secret
  pub owner : lookup label_nvoi_owner secret.labels ≡ some owner_services
  pub values : (k : Bytes) → lookup k secret.values ≡ lookup k kvs

-- While the keys of a list are being dropped: what is wanted is there, and what is neither
-- wanted nor in the list is not.
record Dropping (api : SecretApi) (s : api.State) (n : Bytes) (kvs : Dict Bytes)
    (existing : List Bytes) : Type 0 where
  secret : Secret
  stored : api.get s n ≡ found secret
  owner : lookup label_nvoi_owner secret.labels ≡ some owner_services
  wanted : (k : Bytes) → has_key k kvs ≡ true → lookup k secret.values ≡ lookup k kvs
  unwanted :
      (k : Bytes)
      → has_key k kvs ≡ false
      → contains k existing ≡ false
      → lookup k secret.values ≡ none

lookup-no_has_key : (k : Bytes) (m : Dict Bytes) → lookup k m ≡ none → has_key k m ≡ false
unfolding lookup has_key
lookup-no_has_key k [] h = refl
lookup-no_has_key k ((j, v) ∷ m) h = elim (Bool-cases (j == k)) [
  | inl same ↦ absurd (ground (arith, same, h))
  | inr other ↦ ground (arith, other, h, lookup-no_has_key k m)
]

if_done-state :
    (api : SecretApi) (bad : Outcome) (p : Bool × api.State) → (if_done api bad p).1 ≡ p.1
if_done-state api bad (true, s) = refl
if_done-state api bad (false, s) = refl

if_done-done :
    (api : SecretApi) (bad : Outcome) (p : Bool × api.State)
    → p.0 ≡ true
    → if_done api bad p ≡ (done, p.1)
if_done-done api bad (true, s) h = refl
if_done-done api bad (false, s) h = absurd (ground (arith, h))

module _ (api : SecretApi) (answers : Answers api) (n : Bytes) (kvs : Dict Bytes) where
  delete_secret_key-there :
      (s : api.State) (key : Bytes) (x : Secret)
      → api.get s n ≡ found x
      → has_key key x.values ≡ true
      → (delete_secret_key api s n key).1
        ≡ (api.update s n (record x { values = remove_key key x.values })).1
  unfolding delete_secret_key
  delete_secret_key-there s key x h there =
      ap (λ r. (delete_key_on api s n key r).1) h ∙ rw there (if_done-state api update_failed _)

  delete_secret_key-gone :
      (s : api.State) (key : Bytes) (x : Secret)
      → api.get s n ≡ found x
      → has_key key x.values ≡ false
      → (delete_secret_key api s n key).1 ≡ s
  unfolding delete_secret_key
  delete_secret_key-gone s key x h gone = ap (λ r. (delete_key_on api s n key r).1) h ∙ rw gone refl

  delete_secret_key-Dropping :
      (s : api.State) (key : Bytes) (existing : List Bytes)
      → has_key key kvs ≡ false
      → Dropping api s n kvs (key ∷ existing)
      → Dropping api (delete_secret_key api s n key).1 n kvs existing
  unfolding contains
  delete_secret_key-Dropping s key existing other d =
      elim (Bool-cases (has_key key d.secret.values)) [
        | inl there ↦
            let x : Secret = record d.secret { values = remove_key key d.secret.values } in
            subst (λ t. Dropping api t n kvs existing)
              (sym (delete_secret_key-there s key d.secret d.stored there))
              (record {
                secret = x;
                stored = (answers.updates s n d.secret x d.stored).1;
                owner = d.owner;
                wanted = λ k h. ground (
                  arith,
                  lookup-remove_key k key d.secret.values,
                  d.wanted k h,
                  other,
                  h,
                  ==_iff key k,
                  ap (λ z. has_key z kvs),
                );
                unwanted = λ k h g. ground (
                  arith,
                  lookup-remove_key k key d.secret.values,
                  d.unwanted k h,
                  g,
                  ==_iff key k,
                );
              })
        | inr gone ↦
            subst (λ t. Dropping api t n kvs existing)
              (sym (delete_secret_key-gone s key d.secret d.stored gone))
              (record {
                secret = d.secret;
                stored = d.stored;
                owner = d.owner;
                wanted = d.wanted;
                unwanted = λ k h g. elim (Bool-cases (key == k)) [
                  | inl same ↦
                      lookup-no_key k d.secret.values (
                        subst (λ z. has_key z d.secret.values ≡ false) ((==_iff key k).0 same) gone)
                  | inr apart ↦ d.unwanted k h (ground (arith, apart, g))
                ];
              })
      ]

  drop_keys-Dropping :
      (s : api.State) (existing : List Bytes)
      → Dropping api s n kvs existing
      → Dropping api (drop_keys api s n kvs existing) n kvs []
  unfolding drop_keys contains
  drop_keys-Dropping s [] d = d
  drop_keys-Dropping s (key ∷ existing) d = elim (Bool-cases (has_key key kvs)) [
    | inl kept ↦ rw kept (
        drop_keys-Dropping s existing (record {
          secret = d.secret;
          stored = d.stored;
          owner = d.owner;
          wanted = d.wanted;
          unwanted = λ k h g.
              d.unwanted k h (ground (arith, g, h, kept, ==_iff key k, ap (λ z. has_key z kvs)));
        }))
    | inr dropped ↦ rw dropped (
        drop_keys-Dropping (delete_secret_key api s n key).1 existing
          (delete_secret_key-Dropping s key existing dropped d))
  ]

  -- A secret that has the wanted values, among others.
  record Written (s : api.State) : Type 0 where
    secret : Secret
    stored : api.get s n ≡ found secret
    owner : lookup label_nvoi_owner secret.labels ≡ some owner_services
    wanted : (k : Bytes) → has_key k kvs ≡ true → lookup k secret.values ≡ lookup k kvs

  drop_listed-Dropping :
      (s : api.State)
      → Written s
      → Dropping api (drop_listed api s n kvs (list_secret_keys api s n)) n kvs []
  unfolding list_secret_keys
  drop_listed-Dropping s w = rw w.stored (
      drop_keys-Dropping s (keys w.secret.values) (record {
        secret = w.secret;
        stored = w.stored;
        owner = w.owner;
        wanted = w.wanted;
        unwanted =
            λ k h g. lookup-no_key k w.secret.values (sym (contains-keys k w.secret.values) ∙ g);
      }))

  owner_labels-owner :
      (labels : Dict Bytes)
      → lookup label_nvoi_owner (owner_labels owner_services labels) ≡ some owner_services
  unfolding owner_labels
  owner_labels-owner labels =
      lookup-insert label_nvoi_owner label_nvoi_owner owner_services _
      ∙ rw (==_refl label_nvoi_owner) refl

  module _ (distinct : HasDistinctKeys kvs) where
    written :
        (s : api.State) (labels old : Dict Bytes)
        → api.get s n
          ≡ found
              (record { labels = owner_labels owner_services labels; values = copy_over old kvs })
        → Written s
    written s labels old h = record {
      secret = record { labels = owner_labels owner_services labels; values = copy_over old kvs };
      stored = h;
      owner = owner_labels-owner labels;
      wanted = λ k g. lookup-copy_over k old kvs distinct ∙ rw g refl;
    }

    ensure_on-Written :
        (s : api.State) (r : Read)
        → api.get s n ≡ r
        → (t : api.State) × (ensure_on api s owner_services n kvs r ≡ (done, t)) × Written t
    ensure_on-Written s missing h =
        let x : Secret = record {
          labels = owner_labels owner_services [];
          values = copy_over [] kvs;
        } in
        let (sent, read) = answers.creates s n x h in
        ((api.create s n x).1, if_done-done api create_failed _ sent, written _ [] [] read)
    ensure_on-Written s broken h = absurd (answers.reads s n h)
    ensure_on-Written s (found old) h =
        let x : Secret = record {
          labels = owner_labels owner_services old.labels;
          values = copy_over old.values kvs;
        } in
        let (sent, read) = answers.updates s n old x h in
        (
          (api.update s n x).1,
          if_done-done api update_failed _ sent,
          written _ old.labels old.values read,
        )

    upsert-Dropping :
        (s : api.State)
        → (t : api.State) × (drop_after api n kvs (ensure_secret api s owner_services n kvs)
            ≡ (done, t))
          × Dropping api t n kvs []
    unfolding ensure_secret
    upsert-Dropping s =
        let (t, e, w) = ensure_on-Written s (api.get s n) refl in
        (
          drop_listed api t n kvs (list_secret_keys api t n),
          ap (drop_after api n kvs) e,
          drop_listed-Dropping t w,
        )

    Dropping-Holds : (t : api.State) → Dropping api t n kvs [] → Holds api t n kvs
    unfolding contains
    Dropping-Holds t d = record {
      secret = d.secret;
      stored = d.stored;
      owner = d.owner;
      values = λ k. elim (Bool-cases (has_key k kvs)) [
        | inl h ↦ d.wanted k h
        | inr h ↦ d.unwanted k h refl ∙ sym (lookup-no_key k kvs h)
      ];
    }

-- Where the API server answers, and the given values are not empty and have distinct keys,
-- upsertServiceSecrets succeeds, and leaves the secret of the workload with exactly these values,
-- whatever it held before, and with the owner label of the services, for a cron too.
pub upsert_service_secrets-Holds :
    (api : SecretApi)
    → Answers api
    → (s : api.State) (svc_name : Bytes) (kvs : Dict Bytes) → HasDistinctKeys kvs
    → is_empty kvs ≡ false
    → (t : api.State) × (upsert_service_secrets api s svc_name kvs ≡ (done, t))
      × Holds api t (kube_service_secrets svc_name) kvs
unfolding upsert_service_secrets
upsert_service_secrets-Holds api answers s svc_name kvs distinct some_kvs =
    let (t, e, d) = upsert-Dropping api answers (kube_service_secrets svc_name) kvs distinct s in
    (t, rw some_kvs e, Dropping-Holds api answers (kube_service_secrets svc_name) kvs distinct t d)
