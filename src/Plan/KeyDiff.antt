-- ===== src/Plan/KeyDiff.antt =====
-- What the plan says of the keys of a workload's secret.
use nvoi.Base.{
  Bytes, Bool, List, [], ◌∷◌, ◌==◌, ==_iff, ◌&&◌, not, contains, Bool-cases, inl, inr, arith, ◌≡◌,
  refl, ap,
}
use nvoi.Plan.Entry.{PlanKind}
use nvoi.Plan.Infra.{kind_of, rule_name}
use nvoi.Plan.Diff.{is_add, is_delete, is_no_change, names_where, contains-names_where-append}
use nvoi.Plan.Rules.{rule_name_eq}
use nvoi.Plan.Keys.{key_adds, key_deletes, secret_key_diff}

module _ (workload : Bytes) where
  contains-key_adds :
      (p : PlanKind → Bool) (k : Bytes) (live desired : List Bytes)
      → contains (rule_name workload k) (names_where p (key_adds workload live desired))
        ≡ (contains k desired && p (kind_of (contains k live)))
  unfolding key_adds names_where contains
  contains-key_adds p k live [] = refl
  contains-key_adds p k live (x ∷ desired) = elim (Bool-cases (x == k)) [
    | inl same ↦ ground (
      arith,
      contains-key_adds p k live desired,
      rule_name_eq workload x k,
      ap (λ y. p (kind_of (contains y live))) ((==_iff x k).0 same),
    )
    | inr other ↦ ground (arith, contains-key_adds p k live desired, rule_name_eq workload x k)
  ]

  contains-key_deletes :
      (k : Bytes) (desired live : List Bytes)
      → contains (rule_name workload k) (names_where is_delete (key_deletes workload desired live))
        ≡ (contains k live && not (contains k desired))
  unfolding key_deletes names_where contains
  contains-key_deletes k desired [] = refl
  contains-key_deletes k desired (x ∷ live) = elim (Bool-cases (x == k)) [
    | inl same ↦ ground (
      arith,
      contains-key_deletes k desired live,
      rule_name_eq workload x k,
      ap (λ y. contains y desired) ((==_iff x k).0 same),
    )
    | inr other ↦ ground (arith, contains-key_deletes k desired live, rule_name_eq workload x k)
  ]

  only_key_deletes :
      (desired live : List Bytes)
      → (names_where is_add (key_deletes workload desired live) ≡ [])
        × (names_where is_no_change (key_deletes workload desired live) ≡ [])
  unfolding key_deletes names_where
  only_key_deletes desired [] = (refl, refl)
  only_key_deletes desired (x ∷ live) = ground (arith, only_key_deletes desired live)

  -- For every key of a workload's secret the plan adds it exactly when it is desired and not live,
  -- deletes it exactly when it is live and not desired, and lists it as unchanged exactly when it
  -- is both.
  pub secret_key_diff_lem :
      (desired live : List Bytes) (k : Bytes)
      → (contains
            (rule_name workload k)
            (names_where is_add (secret_key_diff workload desired live))
          ≡ (contains k desired && not (contains k live)))
        × (contains
              (rule_name workload k)
              (names_where is_delete (secret_key_diff workload desired live))
            ≡ (contains k live && not (contains k desired)))
        × (contains
              (rule_name workload k)
              (names_where is_no_change (secret_key_diff workload desired live))
            ≡ (contains k desired && contains k live))
  unfolding secret_key_diff contains
  secret_key_diff_lem desired live k =
      let adds = key_adds workload live desired in
      let dels = key_deletes workload desired live in
      let only = only_key_deletes desired live in
      (
        ground (
          arith,
          contains-names_where-append is_add (rule_name workload k) adds dels,
          only,
          contains-key_adds is_add k live desired,
        ),
        ground (
          arith,
          contains-names_where-append is_delete (rule_name workload k) adds dels,
          contains-key_adds is_delete k live desired,
          contains-key_deletes k desired live,
        ),
        ground (
          arith,
          contains-names_where-append is_no_change (rule_name workload k) adds dels,
          only,
          contains-key_adds is_no_change k live desired,
        ),
      )
