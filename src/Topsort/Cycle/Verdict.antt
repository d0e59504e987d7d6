-- ===== src/Topsort/Cycle/Verdict.antt =====
-- The loop over the dependencies of one name keeps what the search promises.
use nvoi.Base.{ℕ, ◌≤◌, Bytes, Dict, true, List, [], ◌∷◌, ◌++◌}
use nvoi.Base.{◌≡◌, ◌≢◌, refl, subst, arith, ◌==◌, ==_iff, Bool-cases, inl, inr}
use nvoi.Base.{has_key, keys, contains, length}
use nvoi.Config.{ServiceDef}
use nvoi.Topsort.Build.{deps_of}
use nvoi.Topsort.Laws.{IsGrounded}
use nvoi.Topsort.Cycle.{Color, white, gray, black, color_of, Walk, acyclic, cycle, out_of_fuel}
use nvoi.Topsort.Cycle.{close_cycle, and_then, on_color, visit_deps}
use nvoi.Topsort.Cycle.Search.{
  IsChain, IsChain-append, close_cycle-IsCycle, Clean, Verdict, Looks, WalkOk,
}
use nvoi.Topsort.Cycle.Search.{whites}

pub no_member : (d : Bytes) → contains d [] ≢ true
unfolding contains
no_member d h = cc

contains-first : (d : Bytes) (ds : List Bytes) → contains d (d ∷ ds) ≡ true
unfolding contains
contains-first d ds = ground (arith, ==_iff d d)

contains-later : (e d : Bytes) (ds : List Bytes) → contains e ds ≡ true → contains e (d ∷ ds) ≡ true
unfolding contains
contains-later e d ds h = ground arith

module _ (services : Dict ServiceDef) where
  pub Clean-refl :
      (colors : Dict Color) {path : List Bytes}
      → Looks services path colors
      → Clean services colors colors
  Clean-refl colors l = record { gray_back = λ m h. h; fewer = omega arith; sound = l.sound }

  pub Clean-trans :
      {a b c : Dict Color} → Clean services a b → Clean services b c → Clean services a c
  Clean-trans x y = record {
    gray_back = λ m h. x.gray_back m (y.gray_back m h);
    fewer = omega (arith, x.fewer, y.fewer);
    sound = y.sound;
  }

  pub Looks-after :
      {path : List Bytes} {a b : Dict Color}
      → Looks services path a
      → Clean services a b
      → Looks services path b
  Looks-after l x = record { on_path = λ m h. l.on_path m (x.gray_back m h); sound = x.sound }

  -- What the loop over the dependencies has shown when it has found nothing.
  abbrev pub AllGrounded : List Bytes → Type 0
  AllGrounded deps =
      (d : Bytes) → contains d deps ≡ true → has_key d services ≡ true → IsGrounded services d

  pub AllGrounded-cons :
      (d : Bytes) (deps : List Bytes)
      → (has_key d services ≡ true → IsGrounded services d)
      → AllGrounded deps
      → AllGrounded (d ∷ deps)
  unfolding contains
  AllGrounded-cons d deps h k e listed known = elim (Bool-cases (d == e)) [
    | inl same ↦
        subst (IsGrounded services) ((==_iff d e).0 same) (h (rw ((==_iff d e).0 same) known))
    | inr other ↦ k e (ground arith) known
  ]

  pub Verdict-rest :
      {a b : Dict Color} (d : Bytes) (deps : List Bytes) (w : Walk)
      → Clean services a b
      → (has_key d services ≡ true → IsGrounded services d)
      → Verdict services b (AllGrounded deps) w
      → Verdict services a (AllGrounded (d ∷ deps)) w
  Verdict-rest d deps (acyclic c) x g (y, h) = (Clean-trans x y, AllGrounded-cons d deps g h)
  Verdict-rest d deps (cycle p) x g h = h
  Verdict-rest d deps out_of_fuel x g h = h

  module _ (w : List Bytes → Bytes → Dict Color → Walk) (f : ℕ) (ok : WalkOk services w f) where
    -- After the walk of a white dependency the loop goes on from its colours.
    visit-walked :
        (d : Bytes) (deps : List Bytes) (a : Dict Color) (r : Walk) (rest : Dict Color → Walk)
        → Verdict services a (IsGrounded services d) r
        → ((b : Dict Color) → Clean services a b → Verdict services b (AllGrounded deps) (rest b))
        → Verdict services a (AllGrounded (d ∷ deps)) (and_then r rest)
    visit-walked d deps a (acyclic b) rest (x, g) k =
        Verdict-rest d deps (rest b) x (λ _. g) (k b x)
    visit-walked d deps a (cycle p) rest h k = h
    visit-walked d deps a out_of_fuel rest h k = h

    on_color-Verdict :
        (path : List Bytes) (d : Bytes) (deps : List Bytes) (a : Dict Color) (c : Color)
        (rest : Dict Color → Walk)
        → color_of d a ≡ c
        → has_key d services ≡ true
        → IsChain services (path ++ d ∷ [])
        → Looks services path a
        → length (whites a (keys services)) ≤ f
        → ((b : Dict Color) → Clean services a b → Verdict services b (AllGrounded deps) (rest b))
        → Verdict services a
            (AllGrounded (d ∷ deps))
            (on_color c (close_cycle d path) (w path d a) rest a)
    on_color-Verdict path d deps a white rest e known chain l h k =
        visit-walked d deps a (w path d a) rest (ok path d a known e chain l h) k
    on_color-Verdict path d deps a gray rest e known chain l h k =
        close_cycle-IsCycle services d path (l.on_path d e) chain
    on_color-Verdict path d deps a black rest e known chain l h k =
        Verdict-rest d deps (rest a) (Clean-refl a l) (λ _. l.sound d e) (k a (Clean-refl a l))

    pub visit-Verdict :
        (path : List Bytes) (n : Bytes) (deps : List Bytes) (a : Dict Color)
        → ((d : Bytes) → contains d deps ≡ true → contains d (deps_of services n) ≡ true)
        → IsChain services (path ++ n ∷ [])
        → Looks services (path ++ n ∷ []) a
        → length (whites a (keys services)) ≤ f
        → Verdict services a (AllGrounded deps) (visit_deps services w (path ++ n ∷ []) deps a)
    unfolding visit_deps
    visit-Verdict path n [] a sub chain l h =
        (Clean-refl a l, λ d listed. absurd (no_member d listed))
    visit-Verdict path n (d ∷ deps) a sub chain l h =
        let rest = λ (b : Dict Color). visit_deps services w (path ++ n ∷ []) deps b in
        let later = λ (b : Dict Color) (x : Clean services a b).
          visit-Verdict path n deps b (λ e k. sub e (contains-later e d deps k)) chain
            (Looks-after l x) (omega (arith, x.fewer)) in
        elim (Bool-cases (has_key d services)) [
          | inl known ↦ rw known (
              on_color-Verdict (path ++ n ∷ []) d deps a (color_of d a) rest refl known
                (IsChain-append services path n d chain (sub d (contains-first d deps), known)) l h
                later)
          | inr other ↦
              rw other
                (Verdict-rest d deps (rest a) (Clean-refl a l) (λ k. cc) (later a (Clean-refl a l)))
        ]
