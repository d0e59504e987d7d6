-- ===== src/Plan/Diff.antt =====
-- The plan lists exactly the differences between the desired and the live resources.
use nvoi.Base.{
  Bytes, Bool, true, false, List, [], ◌∷◌, ◌++◌, if◌then◌else◌, ◌==◌, ==_iff, ◌&&◌, ◌||◌, not,
  contains, contains-append, Bool-cases, inl, inr, arith, ◌≡◌, refl, ap, ◌∙◌,
}
use nvoi.Plan.Entry.{PlanKind, add, delete, update, no_change, PlanEntry, Resource}
use nvoi.Plan.Infra.{kind_of, plan_deletes}

abbrev pub is_add : PlanKind → Bool
is_add add = true
is_add delete = false
is_add update = false
is_add no_change = false

abbrev pub is_delete : PlanKind → Bool
is_delete add = false
is_delete delete = true
is_delete update = false
is_delete no_change = false

abbrev pub is_update : PlanKind → Bool
is_update add = false
is_update delete = false
is_update update = true
is_update no_change = false

abbrev pub is_no_change : PlanKind → Bool
is_no_change add = false
is_no_change delete = false
is_no_change update = false
is_no_change no_change = true

-- The names of the entries of some kinds.
unfoldable pub names_where : (PlanKind → Bool) → List PlanEntry → List Bytes
names_where p [] = []
names_where p (e ∷ es) = if p e.kind then e.name ∷ names_where p es else names_where p es

pub names_where-append :
    (p : PlanKind → Bool) (xs ys : List PlanEntry)
    → names_where p (xs ++ ys) ≡ names_where p xs ++ names_where p ys
unfolding names_where
names_where-append p [] ys = refl
names_where-append p (x ∷ xs) ys = ground (arith, names_where-append p xs ys)

pub contains-names_where-append :
    (p : PlanKind → Bool) (n : Bytes) (xs ys : List PlanEntry)
    → contains n (names_where p (xs ++ ys))
      ≡ (contains n (names_where p xs) || contains n (names_where p ys))
contains-names_where-append p n xs ys =
    ap (contains n) (names_where-append p xs ys)
    ∙ contains-append n (names_where p xs) (names_where p ys)

-- Which names a diff must list under each kind.
pub record IsDiff (desired live : List Bytes) (es : List PlanEntry) : Type 0 where
  pub adds :
      (n : Bytes)
      → contains n (names_where is_add es) ≡ (contains n desired && not (contains n live))
  pub deletes :
      (n : Bytes)
      → contains n (names_where is_delete es) ≡ (contains n live && not (contains n desired))
  pub unchanged :
      (n : Bytes)
      → contains n (names_where is_no_change es) ≡ (contains n desired && contains n live)
  pub updates : names_where is_update es ≡ []

-- The part of a diff that is made from the desired resources.
pub record IsDesiredPart (desired live : List Bytes) (es : List PlanEntry) : Type 0 where
  pub adds :
      (n : Bytes)
      → contains n (names_where is_add es) ≡ (contains n desired && not (contains n live))
  pub deletes : names_where is_delete es ≡ []
  pub unchanged :
      (n : Bytes)
      → contains n (names_where is_no_change es) ≡ (contains n desired && contains n live)
  pub updates : names_where is_update es ≡ []

pub IsDesiredPart-nil : (live : List Bytes) → IsDesiredPart [] live []
unfolding names_where contains
IsDesiredPart-nil live = record {
  adds = λ n. refl;
  deletes = refl;
  unchanged = λ n. refl;
  updates = refl;
}

pub IsDesiredPart-cons :
    (m : Bytes) (desired live : List Bytes) (e : PlanEntry) (es : List PlanEntry)
    → e.kind ≡ kind_of (contains m live)
    → e.name ≡ m
    → IsDesiredPart desired live es
    → IsDesiredPart (m ∷ desired) live (e ∷ es)
unfolding names_where contains
IsDesiredPart-cons m desired live e es k nm h = record {
  adds = λ n. ground (arith, h.adds n, ==_iff m n);
  deletes = ground (arith, h.deletes);
  unchanged = λ n. ground (arith, h.unchanged n, ==_iff m n);
  updates = ground (arith, h.updates);
}

pub IsDesiredPart-append :
    (d1 d2 live : List Bytes) (es1 es2 : List PlanEntry)
    → IsDesiredPart d1 live es1
    → IsDesiredPart d2 live es2
    → IsDesiredPart (d1 ++ d2) live (es1 ++ es2)
IsDesiredPart-append d1 d2 live es1 es2 h k = record {
  adds = λ n. ground (
    arith,
    h.adds n,
    k.adds n,
    contains-append n d1 d2,
    contains-names_where-append is_add n es1 es2,
  );
  deletes = rw (names_where-append is_delete es1 es2, h.deletes, k.deletes) refl;
  unchanged = λ n. ground (
    arith,
    h.unchanged n,
    k.unchanged n,
    contains-append n d1 d2,
    contains-names_where-append is_no_change n es1 es2,
  );
  updates = rw (names_where-append is_update es1 es2, h.updates, k.updates) refl;
}

module _ (r : Resource) (desired : List Bytes) where
  pub contains-plan_deletes :
      (n : Bytes) (live : List Bytes)
      → contains n (names_where is_delete (plan_deletes r desired live))
        ≡ (contains n live && not (contains n desired))
  unfolding plan_deletes names_where contains
  contains-plan_deletes n [] = refl
  contains-plan_deletes n (m ∷ live) = elim (Bool-cases (m == n)) [
    | inl same ↦ ground (arith, contains-plan_deletes n live, ==_iff m n)
    | inr other ↦ ground (arith, contains-plan_deletes n live)
  ]

  only_deletes :
      (live : List Bytes)
      → (names_where is_add (plan_deletes r desired live) ≡ [])
        × (names_where is_no_change (plan_deletes r desired live) ≡ [])
        × (names_where is_update (plan_deletes r desired live) ≡ [])
  unfolding plan_deletes names_where
  only_deletes [] = (refl, refl, refl)
  only_deletes (m ∷ live) = ground (arith, only_deletes live)

  -- The desired part and the deletions together are the diff. `order` is the order of the
  -- deletions, which has the live names.
  pub join-IsDiff :
      (live order : List Bytes) (es : List PlanEntry)
      → ((n : Bytes) → contains n order ≡ contains n live)
      → IsDesiredPart desired live es
      → IsDiff desired live (es ++ plan_deletes r desired order)
  unfolding contains
  join-IsDiff live order es same h = record {
    adds = λ n. ground (
      arith,
      h.adds n,
      contains-names_where-append is_add n es (plan_deletes r desired order),
      only_deletes order,
    );
    deletes = λ n. ground (
      arith,
      contains-names_where-append is_delete n es (plan_deletes r desired order),
      h.deletes,
      contains-plan_deletes n order,
      same n,
    );
    unchanged = λ n. ground (
      arith,
      h.unchanged n,
      contains-names_where-append is_no_change n es (plan_deletes r desired order),
      only_deletes order,
    );
    updates =
        rw
          (
            names_where-append is_update es (plan_deletes r desired order),
            h.updates,
            (only_deletes order).2,
          )
          refl;
  }

pub IsDesiredPart-same :
    (d1 d2 live : List Bytes) (es : List PlanEntry)
    → ((n : Bytes) → contains n d1 ≡ contains n d2)
    → IsDesiredPart d1 live es
    → IsDesiredPart d2 live es
IsDesiredPart-same d1 d2 live es same h = record {
  adds = λ n. ground (arith, h.adds n, same n);
  deletes = h.deletes;
  unchanged = λ n. ground (arith, h.unchanged n, same n);
  updates = h.updates;
}
