-- ===== src/Topsort/Cycle/Walks.antt =====
-- `findDependencyCycle` reports real cycles only, and is silent only if there is none.
use nvoi.Base.{ℕ, zero, suc, ◌≤◌, Bytes, Dict, Bool, true, List, [], ◌∷◌, ◌++◌}
use nvoi.Base.{◌≡◌, ◌≢◌, ◌↔◌, refl, sym, subst, ◌∙◌, ap, arith, ◌==◌, ==_iff, Bool-cases, inl, inr}
use nvoi.Base.{
  has_key, keys, contains, contains-append, contains-keys, select, length, insert, lookup,
  HasDistinctKeys,
}
use nvoi.Base.Sort.{sort, contains-sort, count}
use nvoi.Config.{ServiceDef}
use nvoi.Topsort.{topo_sort_services}
use nvoi.Topsort.Build.{deps_of, deps_of-no_key}
use nvoi.Topsort.Laws.{IsGrounded, grounded, topo_sort_complete}
use nvoi.Topsort.Cycle.{Color, white, gray, black, color_of, Walk, acyclic, cycle, out_of_fuel}
use nvoi.Topsort.Cycle.{and_then, walk, if_white, walk_all}
use nvoi.Topsort.Cycle.{search, join_arrow, describe, find_dependency_cycle}
use nvoi.Topsort.Cycle.Search.{IsChain, IsCycle, IsChain-append, Clean, Verdict, Looks, WalkOk}
use nvoi.Topsort.Cycle.Search.{
  whites, is_white, length-whites_le, length-whites_lt, color_of-insert,
}
use nvoi.Topsort.Cycle.Verdict.{visit-Verdict, AllGrounded, Clean-refl, no_member, Verdict-rest}

module _ (services : Dict ServiceDef) where
  -- The colours when the walk of `n` begins.
  Looks-enter :
      (path : List Bytes) (n : Bytes) (colors : Dict Color)
      → Looks services path colors
      → Looks services (path ++ n ∷ []) (insert n gray colors)
  unfolding contains
  Looks-enter path n colors l = record {
    on_path = λ m h. ground (
      arith,
      color_of-insert m n gray colors,
      l.on_path m,
      contains-append m path (n ∷ []),
      ==_iff n m,
    );
    sound = λ m h. l.sound m (ground (arith, color_of-insert m n gray colors));
  }

  walk-done :
      (n : Bytes) (colors : Dict Color) (r : Walk)
      → color_of n colors ≡ white
      → Verdict services (insert n gray colors) (AllGrounded services (deps_of services n)) r
      → Verdict services colors
          (IsGrounded services n)
          (and_then r (λ c. acyclic (insert n black c)))
  walk-done n colors (acyclic c) w (x, g) =
      let done : IsGrounded services n = grounded n (λ d (listed, known). g d listed known) in
      (
        record {
          gray_back = λ m h.
              ground (
                arith,
                color_of-insert m n black c,
                color_of-insert m n gray colors,
                x.gray_back m,
              );
          fewer = omega (
            arith,
            x.fewer,
            length-whites_le n black c (keys services) refl,
            length-whites_le n gray colors (keys services) refl,
          );
          sound = λ m h. elim (Bool-cases (n == m)) [
            | inl same ↦ subst (IsGrounded services) ((==_iff n m).0 same) done
            | inr other ↦ x.sound m (ground (arith, color_of-insert m n black c))
          ];
        },
        done,
      )
  walk-done n colors (cycle p) w h = h
  walk-done n colors out_of_fuel w h = h

  walk-Ok : (f : ℕ) → WalkOk services (walk services f) f
  unfolding walk
  walk-Ok zero path n colors known w chain l h = absurd (
      omega (
        arith,
        length-whites_lt n gray colors (keys services) refl w (contains-keys n services ∙ known),
      ))
  walk-Ok (suc f) path n colors known w chain l h = walk-done n colors _ w (
      visit-Verdict services (walk services f) f (walk-Ok f) path n (deps_of services n)
        (insert n gray colors) (λ d k. k) chain (Looks-enter path n colors l)
        (omega (
          arith,
          length-whites_lt n gray colors (keys services) refl w (contains-keys n services ∙ known),
        )))

  abbrev NoGray : Dict Color → Type 0
  NoGray colors = (m : Bytes) → color_of m colors ≢ gray

  abbrev Sound : Dict Color → Type 0
  Sound colors = (m : Bytes) → color_of m colors ≡ black → IsGrounded services m

  Looks-top : (colors : Dict Color) → NoGray colors → Sound colors → Looks services [] colors
  Looks-top colors g s = record { on_path = λ m h. absurd (g m h); sound = s }

  start-Verdict :
      (f : ℕ) (n : Bytes) (colors : Dict Color) (c : Color)
      → color_of n colors ≡ c
      → has_key n services ≡ true
      → NoGray colors
      → Sound colors
      → length (whites colors (keys services)) ≤ f
      → Verdict services colors
          (IsGrounded services n)
          (if_white c (walk services f [] n colors) (acyclic colors))
  start-Verdict f n colors white e known g s h =
      walk-Ok f [] n colors known e tt (Looks-top colors g s) h
  start-Verdict f n colors gray e known g s h = absurd (g n e)
  start-Verdict f n colors black e known g s h =
      (Clean-refl services colors (Looks-top colors g s), s n e)

  walk_all-next :
      (n : Bytes) (names : List Bytes) (a : Dict Color) (r : Walk) (rest : Dict Color → Walk)
      → Verdict services a (IsGrounded services n) r
      → ((b : Dict Color)
          → Clean services a b
          → Verdict services b (AllGrounded services names) (rest b))
      → Verdict services a (AllGrounded services (n ∷ names)) (and_then r rest)
  walk_all-next n names a (acyclic b) rest (x, g) k =
      Verdict-rest services n names (rest b) x (λ _. g) (k b x)
  walk_all-next n names a (cycle p) rest h k = h
  walk_all-next n names a out_of_fuel rest h k = h

  walk_all-Verdict :
      (f : ℕ) (names : List Bytes) (colors : Dict Color)
      → ((m : Bytes) → contains m names ≡ true → has_key m services ≡ true)
      → NoGray colors
      → Sound colors
      → length (whites colors (keys services)) ≤ f
      → Verdict services colors (AllGrounded services names) (walk_all services f names colors)
  unfolding walk_all contains
  walk_all-Verdict f [] colors sub g s h =
      (Clean-refl services colors (Looks-top colors g s), λ d k. absurd (no_member d k))
  walk_all-Verdict f (n ∷ names) colors sub g s h =
      walk_all-next n names colors _ (walk_all services f names)
        (start-Verdict f n colors (color_of n colors) refl (sub n (ground (arith, ==_iff n n))) g s
          h)
        (λ b x.
          walk_all-Verdict f names b (λ m k. sub m (ground arith)) (λ m k. g m (x.gray_back m k))
            x.sound (omega (arith, x.fewer)))

  length-select_le : (p : Bytes → Bool) (xs : List Bytes) → length (select p xs) ≤ length xs
  length-select_le p [] = omega arith
  length-select_le p (x ∷ xs) = ground (arith, length-select_le p xs)

  color_of-nil : (m : Bytes) → color_of m [] ≡ white
  unfolding color_of lookup
  color_of-nil m = refl

  search-Verdict :
      Verdict services [] (AllGrounded services (sort (keys services))) (search services)
  unfolding search
  search-Verdict =
      walk_all-Verdict (length (keys services)) (sort (keys services)) []
        (λ m h. sym (contains-sort m (keys services) ∙ contains-keys m services) ∙ h)
        (λ m. ground (arith, color_of-nil m)) (λ m h. ground (arith, color_of-nil m))
        (length-select_le (λ k. is_white (color_of k [])) (keys services))

  -- No dependency cycle goes through a grounded name.
  grounded-cycle :
      (n : Bytes) (inner : List Bytes)
      → IsGrounded services n
      → ¬ IsChain services (n ∷ (inner ++ n ∷ []))
  grounded-cycle n [] (grounded _ below) (e, h) = grounded-cycle n [] (below n e) (e, tt)
  grounded-cycle n (m ∷ inner) (grounded _ below) (e, h) =
      grounded-cycle m (inner ++ n ∷ []) (below m e) (IsChain-append services (m ∷ inner) n m h e)

  join_arrow-cons : (a b : Bytes) (inner : List Bytes) → join_arrow (a ∷ (inner ++ b ∷ [])) ≢ []
  unfolding join_arrow
  join_arrow-cons [] b [] h = cc
  join_arrow-cons (c ∷ a) b [] h = cc
  join_arrow-cons [] b (x ∷ inner) h = cc
  join_arrow-cons (c ∷ a) b (x ∷ inner) h = cc

  -- No service reaches a dependency cycle.
  unfoldable pub AllServicesGrounded : Type 0
  AllServicesGrounded = (n : Bytes) → has_key n services ≡ true → IsGrounded services n

  IsGrounded-any : AllServicesGrounded → (n : Bytes) → IsGrounded services n
  unfolding AllServicesGrounded
  IsGrounded-any all n = elim (Bool-cases (has_key n services)) [
    | inl known ↦ all n known
    | inr other ↦
        grounded n (λ d (listed, known).
          absurd (no_member d (rw (deps_of-no_key n services other) at listed)))
  ]

  describe-nil_iff :
      (w : Walk)
      → Verdict services [] (AllGrounded services (sort (keys services))) w
      → (describe w ≡ []) ↔ AllServicesGrounded
  unfolding AllServicesGrounded
  describe-nil_iff (acyclic c) (x, g) = (
    λ _ n known. g n (contains-sort n (keys services) ∙ contains-keys n services ∙ known) known,
    λ _. refl,
  )
  describe-nil_iff (cycle p) h = (
    λ e. absurd (join_arrow-cons h.start h.start h.inner (ap join_arrow (sym h.shape) ∙ e)),
    λ all. absurd (
        grounded-cycle h.start h.inner (IsGrounded-any all h.start)
          (subst (IsChain services) h.shape h.chain)),
  )
  describe-nil_iff out_of_fuel h = absurd h

  describe-IsCycle :
      (w : Walk)
      → Verdict services [] (AllGrounded services (sort (keys services))) w
      → describe w ≢ []
      → (p : List Bytes) × IsCycle services p × (describe w ≡ join_arrow p)
  describe-IsCycle (acyclic c) h ne = absurd (ne refl)
  describe-IsCycle (cycle p) h ne = (p, h, refl)
  describe-IsCycle out_of_fuel h ne = absurd h

  -- The check is silent exactly when no service reaches a dependency cycle.
  pub find_dependency_cycle-nil_iff : (find_dependency_cycle services ≡ []) ↔ AllServicesGrounded
  unfolding find_dependency_cycle
  find_dependency_cycle-nil_iff = describe-nil_iff (search services) search-Verdict

  -- If the check is not silent, it reports a chain of declared dependencies that ends where it
  -- begins, joined by arrows.
  pub find_dependency_cycle-IsCycle :
      find_dependency_cycle services ≢ []
      → (p : List Bytes) × IsCycle services p × (find_dependency_cycle services ≡ join_arrow p)
  unfolding find_dependency_cycle
  find_dependency_cycle-IsCycle = describe-IsCycle (search services) search-Verdict

  -- If the check is silent and the keys of the map are distinct, the order of `topoSortServices` has
  -- every service exactly once.
  pub topo_sort-of_no_cycle :
      HasDistinctKeys services
      → find_dependency_cycle services ≡ []
      → (n : Bytes) → has_key n services ≡ true
      → count n (topo_sort_services services) ≡ 1
  unfolding AllServicesGrounded
  topo_sort-of_no_cycle distinct silent n known =
      topo_sort_complete services distinct n known
        ((find_dependency_cycle-nil_iff).0 silent n known)
