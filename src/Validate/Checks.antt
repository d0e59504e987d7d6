-- ===== src/Validate/Checks.antt =====
-- The errors of `ValidateConfig` and the way its checks are put together: the first failing check
-- ends the validation. A failure carries the name that the message prints, and its kind.
use nvoi.Base.{not, Bytes, Dict, Bool, true, false, List, [], ◌∷◌, ◌≡◌, refl, subst, some, arith}
use nvoi.Base.{lookup, All, ◌==◌, ==_iff, Bool-cases, inl, inr}

pub data Reason : Type 0 where
  required invalid_name invalid_env_var invalid_domain : Reason
  kind_required kind_unsupported : Reason
  build_unsupported builder_missing builder_idle ci_unsupported : Reason
  tunnel_unsupported tunnel_needs_dns tunnel_needs_domain tunnel_port : Reason
  no_server type_required region_required role_required role_unsupported : Reason
  disk_negative disk_fixed no_master many_masters : Reason
  size_not_positive server_required server_undefined : Reason
  engine_required engine_unsupported credentials_required user_required : Reason
  password_required database_required user_not_ref password_not_ref : Reason
  server_is_master server_shared_with_services server_shared_with_crons : Reason
  credentials_not_valid server_not_valid size_not_valid : Reason
  backup_without_storage schedule_invalid : Reason
  image_required registry_missing registry_undefined image_no_namespace image_ambiguous : Reason
  server_and_servers replicas_negative storage_undefined database_undefined : Reason
  mount_malformed volume_undefined many_servers_with_volume volume_elsewhere : Reason
  secret_not_ref depends_on_self dependency_undefined dependency_cycle : Reason
  schedule_required service_undefined no_port no_domain single_replica : Reason
  empty_host invalid_host username_required : Reason

pub data Check : Type 0 where
  pass : Check
  fail : (name : Bytes) (reason : Reason) → Check

infixl 5 ◌>>◌
abbrev pub ◌>>◌ : Check → Check → Check
pass >> k = k
fail name reason >> k = fail name reason

-- `if b { return fmt.Errorf(…) }`
abbrev pub reject_if : Bool → Bytes → Reason → Check
reject_if true name reason = fail name reason
reject_if false name reason = pass

-- The loop over a list that returns the first error.
abbrev pub for_each {ℓ} : {A : Type ℓ} → (A → Check) → List A → Check
for_each f [] = pass
for_each f (x ∷ xs) = f x >> for_each f xs

-- The loop over a map.
abbrev pub for_each_entry {ℓ} : {V : Type ℓ} → (Bytes → V → Check) → Dict V → Check
for_each_entry f [] = pass
for_each_entry f ((k, v) ∷ m) = f k v >> for_each_entry f m

pub >>-pass : (a b : Check) → (a >> b) ≡ pass → (a ≡ pass) × (b ≡ pass)
>>-pass pass b h = (refl, h)
>>-pass (fail name reason) b h = cc

pub reject_if-pass :
    (b : Bool) (name : Bytes) (reason : Reason) → reject_if b name reason ≡ pass → b ≡ false
reject_if-pass true name reason h = cc
reject_if-pass false name reason h = refl

pub for_each-pass {ℓ} :
    {A : Type ℓ} (f : A → Check) (xs : List A) → for_each f xs ≡ pass → All (λ x. f x ≡ pass) xs
for_each-pass f [] h = tt
for_each-pass f (x ∷ xs) h =
    let (here, later) = >>-pass (f x) (for_each f xs) h in (here, for_each-pass f xs later)

pub for_each_entry-pass {ℓ} :
    {V : Type ℓ} (f : Bytes → V → Check) (m : Dict V)
    → for_each_entry f m ≡ pass
    → All (λ e. f e.0 e.1 ≡ pass) m
for_each_entry-pass f [] h = tt
for_each_entry-pass f ((k, v) ∷ m) h =
    let (here, later) = >>-pass (f k v) (for_each_entry f m) h in
    (here, for_each_entry-pass f m later)

-- What holds of all entries of a map holds of the one that is looked up.
pub lookup-All {ℓ} :
    {V : Type ℓ} (P : Bytes → V → Type 0) (k : Bytes) (v : V) (m : Dict V)
    → All (λ e. P e.0 e.1) m
    → lookup k m ≡ some v
    → P k v
unfolding lookup
lookup-All P k v [] h e = cc
lookup-All P k v ((j, w) ∷ m) (p, h) e = elim (Bool-cases (j == k)) [
  | inl same ↦
      let values : w ≡ v = ground arith in
      subst (P k) values (subst (λ n. P n w) ((==_iff j k).0 same) p)
  | inr other ↦ lookup-All P k v m h (ground arith)
]

pub not_rejected :
    (b : Bool) (name : Bytes) (reason : Reason) (k : Check)
    → (reject_if b name reason >> k) ≡ pass
    → (b ≡ false) × (k ≡ pass)
not_rejected true name reason k h = cc
not_rejected false name reason k h = (refl, h)

-- A loop that rejects the elements which fail a test.
pub for_each-reject {ℓ} :
    {A : Type ℓ} (p : A → Bool) (name : Bytes) (reason : Reason) (xs : List A)
    → for_each (λ x. reject_if (not (p x)) name reason) xs ≡ pass
    → All (λ x. p x ≡ true) xs
for_each-reject p name reason [] h = tt
for_each-reject p name reason (x ∷ xs) h =
    let (here, later) = not_rejected (not (p x)) name reason _ h in
    (ground arith, for_each-reject p name reason xs later)
