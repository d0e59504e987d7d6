-- ===== src/Plan/Rules.antt =====
-- The plan of the firewall rules: which ports it opens, closes and changes.
use nvoi.Base.{
  suc, Bytes, bytes, Option, none, some, Bool, true, false, List, [], ◌∷◌, ◌++◌, ◌==◌, ==_iff, ◌&&◌,
  ◌||◌, not, contains, contains-keys, Bool-cases, inl, inr, arith, ◌≡◌, ◌↔◌, refl, sym, ap, ◌∙◌,
  subst, length, lookup, has_key, keys, is_some,
}
use nvoi.Base.Sort.{sort, insert_sorted, SameItems, count, count-sort, sort_unique}
use nvoi.Firewall.{PortAllowList, or_nil}
use nvoi.Plan.Entry.{PlanKind, PlanEntry}
use nvoi.Plan.Infra.{
  insert_port, sort_ports, sorted_ports, same_list, cidr_equal, rule_name, rule_entry, rule_adds,
  rule_deletes, diff_rules,
}
use nvoi.Plan.Diff.{is_add, is_delete, is_update, names_where, contains-names_where-append}
use mathlib.Core.List.{append_cancel_left}

same_list_iff : (xs ys : List Bytes) → (same_list xs ys ≡ true) ↔ (xs ≡ ys)
unfolding same_list
same_list_iff [] [] = ground arith
same_list_iff [] (y ∷ ys) = ground arith
same_list_iff (x ∷ xs) [] = ground arith
same_list_iff (x ∷ xs) (y ∷ ys) = ground (arith, same_list_iff xs ys, ==_iff x y)

length-insert_sorted : (x : Bytes) (ys : List Bytes) → length (insert_sorted x ys) ≡ suc (length ys)
unfolding insert_sorted
length-insert_sorted x [] = refl
length-insert_sorted x (y ∷ ys) = ground (arith, length-insert_sorted x ys)

length-sort : (xs : List Bytes) → length (sort xs) ≡ length xs
unfolding sort
length-sort [] = refl
length-sort (x ∷ xs) = length-insert_sorted x (sort xs) ∙ ap suc (length-sort xs)

-- Two CIDR lists count as equal exactly when every CIDR stands in both as often: the order in
-- which the provider reports them does not make a change.
cidr_equal-SameItems : (a b : List Bytes) → (cidr_equal a b ≡ true) ↔ SameItems a b
unfolding cidr_equal
cidr_equal-SameItems a b = (
  λ h z.
      sym (count-sort z a)
      ∙ ap (count z) ((same_list_iff (sort a) (sort b)).0 (ground (arith, h)))
      ∙ count-sort z b,
  λ same.
      let sorted = sort_unique a b same in
      let lengths = sym (length-sort a) ∙ ap length sorted ∙ length-sort b in
      ground (arith, lengths, (same_list_iff (sort a) (sort b)).1 sorted),
)

contains-insert_port :
    (x p : Bytes) (ports : List Bytes) → contains x (insert_port p ports) ≡ contains x (p ∷ ports)
unfolding insert_port contains
contains-insert_port x p [] = refl
contains-insert_port x p (q ∷ ports) = ground (arith, contains-insert_port x p ports)

contains-sort_ports :
    (x : Bytes) (ports : List Bytes) → contains x (sort_ports ports) ≡ contains x ports
unfolding sort_ports contains
contains-sort_ports x [] = refl
contains-sort_ports x (p ∷ ports) =
    contains-insert_port x p (sort_ports ports)
    ∙ ap (λ b. (p == x) || b) (contains-sort_ports x ports)

contains-sorted_ports : (x : Bytes) (m : PortAllowList) → contains x (sorted_ports m) ≡ has_key x m
unfolding sorted_ports
contains-sorted_ports x m = contains-sort_ports x (keys m) ∙ contains-keys x m

pub rule_name_eq : (fw p q : Bytes) → (rule_name fw p == rule_name fw q) ≡ (p == q)
rule_name_eq fw p q = ground (
  arith,
  ==_iff p q,
  ==_iff (rule_name fw p) (rule_name fw q),
  λ (e : rule_name fw p ≡ rule_name fw q). append_cancel_left (fw ++ bytes ":") p q e,
  λ (e : p ≡ q). ap (rule_name fw) e,
)

contains-names_where-cons :
    (k : PlanKind → Bool) (n : Bytes) (e : PlanEntry) (es : List PlanEntry)
    → contains n (names_where k (e ∷ es))
      ≡ ((k e.kind && e.name == n) || contains n (names_where k es))
unfolding names_where contains
contains-names_where-cons k n e es = ground arith

module _ (fw : Bytes) (desired live : PortAllowList) where
  -- The entry of a desired port.
  abbrev rule_kind : Bytes → PlanKind
  rule_kind p = (rule_entry fw p (or_nil (lookup p desired)) (lookup p live)).kind

  rule_entry-name :
      (p : Bytes) (want : List Bytes) (l : Option (List Bytes))
      → (rule_entry fw p want l).name ≡ rule_name fw p
  rule_entry-name p want none = refl
  rule_entry-name p want (some l) = ground arith

  contains-rule_adds :
      (k : PlanKind → Bool) (p : Bytes) (ports : List Bytes)
      → contains (rule_name fw p) (names_where k (rule_adds fw desired live ports))
        ≡ (contains p ports && k (rule_kind p))
  unfolding rule_adds names_where contains
  contains-rule_adds k p [] = refl
  contains-rule_adds k p (q ∷ ports) =
      let e = rule_entry fw q (or_nil (lookup q desired)) (lookup q live) in
      contains-names_where-cons k (rule_name fw p) e (rule_adds fw desired live ports)
      ∙ ap
          (λ n.
            (k e.kind && n == rule_name fw p)
            || contains (rule_name fw p) (names_where k (rule_adds fw desired live ports)))
          (rule_entry-name q (or_nil (lookup q desired)) (lookup q live))
      ∙ (elim (Bool-cases (q == p))
          as (λ c.
            ((k e.kind && rule_name fw q == rule_name fw p)
              || contains (rule_name fw p) (names_where k (rule_adds fw desired live ports)))
            ≡ (contains p (q ∷ ports) && k (rule_kind p))) [
              | inl same ↦ ground (
                arith,
                contains-rule_adds k p ports,
                rule_name_eq fw q p,
                ap (λ x. k (rule_kind x)) ((==_iff q p).0 same),
              )
              | inr other ↦ ground (arith, contains-rule_adds k p ports, rule_name_eq fw q p)
            ])

  contains-rule_deletes :
      (p : Bytes) (ports : List Bytes)
      → contains (rule_name fw p) (names_where is_delete (rule_deletes fw desired live ports))
        ≡ (contains p ports && not (has_key p desired || p == bytes "22"))
  unfolding rule_deletes names_where contains
  contains-rule_deletes p [] = refl
  contains-rule_deletes p (q ∷ ports) = elim (Bool-cases (q == p)) [
    | inl same ↦
        ground (arith, contains-rule_deletes p ports, rule_name_eq fw q p, (==_iff q p).0 same)
    | inr other ↦ ground (arith, contains-rule_deletes p ports, rule_name_eq fw q p)
  ]

  only_deletes :
      (ports : List Bytes)
      → (names_where is_add (rule_deletes fw desired live ports) ≡ [])
        × (names_where is_update (rule_deletes fw desired live ports) ≡ [])
  unfolding rule_deletes names_where
  only_deletes [] = (refl, refl)
  only_deletes (q ∷ ports) = ground (arith, only_deletes ports)

  rule_kind-delete : (p : Bytes) → is_delete (rule_kind p) ≡ false
  rule_kind-delete p = ground arith

  has_key-is_some : (p : Bytes) (m : PortAllowList) → has_key p m ≡ is_some (lookup p m)
  unfolding has_key lookup
  has_key-is_some p [] = refl
  has_key-is_some p ((q, v) ∷ m) = ground (arith, has_key-is_some p m)

  rule_kind-add : (p : Bytes) → is_add (rule_kind p) ≡ not (has_key p live)
  rule_kind-add p = ground (arith, has_key-is_some p live)

-- Whether a live rule has other CIDRs than the wanted ones, as the code tests it.
abbrev is_drifted : (want : List Bytes) → Option (List Bytes) → Bool
is_drifted want none = false
is_drifted want (some l) = not (cidr_equal l want)

-- There is a live rule, and some CIDR stands in it more or less often than in the wanted ones.
abbrev pub IsDrifted : (want : List Bytes) → Option (List Bytes) → Type 0
IsDrifted want none = ⊥
IsDrifted want (some l) = ¬ SameItems l want

is_drifted_iff :
    (want : List Bytes) (l : Option (List Bytes)) → (is_drifted want l ≡ true) ↔ IsDrifted want l
is_drifted_iff want none = (λ h. cc, λ h. absurd h)
is_drifted_iff want (some l) = (
  λ h same. ground (arith, h, (cidr_equal-SameItems l want).1 same),
  λ other. elim (Bool-cases (cidr_equal l want)) [
    | inl equal ↦ absurd (other ((cidr_equal-SameItems l want).0 equal))
    | inr apart ↦ ground (arith, apart)
  ],
)

and_iff : (a b : Bool) (P : Type 0) → (b ≡ true) ↔ P → ((a && b) ≡ true) ↔ ((a ≡ true) × P)
and_iff a b P h =
    (λ e. (ground (arith, e), h.0 (ground (arith, e))), λ (x, y). ground (arith, x, h.1 y))

-- What the rule part of the plan must say about every port of one firewall.
pub record IsRuleDiff (fw : Bytes) (desired live : PortAllowList) (es : List PlanEntry)
    : Type 0 where
  pub adds :
      (p : Bytes)
      → contains (rule_name fw p) (names_where is_add es)
        ≡ (has_key p desired && not (has_key p live))
  pub deletes :
      (p : Bytes)
      → contains (rule_name fw p) (names_where is_delete es)
        ≡ (has_key p live && not (has_key p desired || p == bytes "22"))
  pub updates :
      (p : Bytes)
      → (contains (rule_name fw p) (names_where is_update es) ≡ true)
        ↔ ((has_key p desired ≡ true) × IsDrifted (or_nil (lookup p desired)) (lookup p live))

-- For every port of a firewall the plan opens it exactly when it is desired and not live, closes
-- it exactly when it is live, not desired and not port 22, and changes it exactly when it is
-- desired and its live CIDRs are others than the desired ones, each counted as often as it stands.
pub diff_rules-IsRuleDiff :
    (fw : Bytes) (desired live : PortAllowList)
    → IsRuleDiff fw desired live (diff_rules fw desired live)
unfolding diff_rules contains
diff_rules-IsRuleDiff fw desired live =
    let adds = rule_adds fw desired live (sorted_ports desired) in
    let dels = rule_deletes fw desired live (sorted_ports live) in
    let only = only_deletes fw desired live (sorted_ports live) in
    record {
      adds = λ p. ground (
        arith,
        contains-names_where-append is_add (rule_name fw p) adds dels,
        only,
        contains-rule_adds fw desired live is_add p (sorted_ports desired),
        contains-sorted_ports p desired,
        rule_kind-add fw desired live p,
      );
      deletes = λ p. ground (
        arith,
        contains-names_where-append is_delete (rule_name fw p) adds dels,
        contains-rule_adds fw desired live is_delete p (sorted_ports desired),
        contains-rule_deletes fw desired live p (sorted_ports live),
        contains-sorted_ports p live,
        rule_kind-delete fw desired live p,
      );
      updates = λ p.
          let found : contains (rule_name fw p) (names_where is_update (adds ++ dels))
              ≡ (has_key p desired && is_drifted (or_nil (lookup p desired)) (lookup p live)) =
            ground (
              arith,
              contains-names_where-append is_update (rule_name fw p) adds dels,
              only,
              contains-rule_adds fw desired live is_update p (sorted_ports desired),
              contains-sorted_ports p desired,
            ) in
          subst
            (λ b. (b ≡ true) ↔ (
              (has_key p desired ≡ true) × IsDrifted (or_nil (lookup p desired)) (lookup p live)))
            (sym found)
            (and_iff (has_key p desired) _ _
              (is_drifted_iff (or_nil (lookup p desired)) (lookup p live)));
    }
