-- ===== src/Topsort/Cycle.antt =====
-- findDependencyCycle of internal/reconcile/topsort.go: the depth-first search with three colours.
pub mod Search
pub mod Verdict
pub mod Walks
use nvoi.Base.{
  ℕ, zero, suc, ◌+◌, Bytes, bytes, Dict, Option, none, some, Bool, true, false, List, [], ◌∷◌,
}
use nvoi.Base.{◌++◌, if◌then◌else◌, ◌==◌, lookup, has_key, keys, insert, length}
use nvoi.Base.Sort.{sort}
use nvoi.Config.{ServiceDef}
use nvoi.Topsort.Build.{deps_of}

pub data Color : Type 0 where
  white gray black : Color

abbrev pub or_white : Option Color → Color
or_white none = white
or_white (some c) = c

-- `color[n]`; a missing key reads 0, which is white
unfoldable pub color_of : Bytes → Dict Color → Color
color_of n colors = or_white (lookup n colors)

pub data Walk : Type 0 where
  acyclic : Dict Color → Walk
  cycle : List Bytes → Walk
  out_of_fuel : Walk

-- The path from the first occurrence of `dep`, or the whole path.
unfoldable pub from_first : Bytes → List Bytes → Option (List Bytes)
from_first dep [] = none
from_first dep (p ∷ path) = if p == dep then some (p ∷ path) else from_first dep path

unfoldable pub close_cycle : Bytes → List Bytes → List Bytes
unfolding from_first
close_cycle dep path = elim (from_first dep path) [ none ↦ path | some cyc ↦ cyc ++ dep ∷ [] ]

abbrev pub and_then : Walk → (Dict Color → Walk) → Walk
and_then (acyclic colors) k = k colors
and_then (cycle p) k = cycle p
and_then out_of_fuel k = out_of_fuel

-- The case on `color[dep]`: `walk_dep` is the recursive call, `rest` the rest of the loop.
abbrev pub on_color :
    Color
    → (closed : List Bytes) → (walk_dep : Walk) → (rest : Dict Color → Walk) → Dict Color
    → Walk
on_color white closed walk_dep rest colors = and_then walk_dep rest
on_color gray closed walk_dep rest colors = cycle closed
on_color black closed walk_dep rest colors = rest colors

abbrev pub if_white : Color → Walk → Walk → Walk
if_white white a b = a
if_white gray a b = b
if_white black a b = b

module _ (services : Dict ServiceDef) where
  -- The loop over the dependencies. The path is an argument: the source undoes its `append` when
  -- a walk has found nothing, and a walk that has found a cycle ends the search.
  pub visit_deps :
      (walk : List Bytes → Bytes → Dict Color → Walk) → (path deps : List Bytes) → Dict Color → Walk
  unfolding color_of close_cycle
  visit_deps walk path [] colors = acyclic colors
  visit_deps walk path (dep ∷ deps) colors =
      let rest = λ (c : Dict Color). visit_deps walk path deps c in
      if has_key dep services
      then on_color (color_of dep colors) (close_cycle dep path) (walk path dep colors) rest colors
      else rest colors

  pub walk : ℕ → List Bytes → Bytes → Dict Color → Walk
  unfolding visit_deps
  walk zero path n colors = out_of_fuel
  walk (suc f) path n colors =
      and_then (visit_deps (walk f) (path ++ n ∷ []) (deps_of services n) (insert n gray colors))
        (λ c. acyclic (insert n black c))

  -- The loop over the sorted names.
  pub walk_all : ℕ → List Bytes → Dict Color → Walk
  unfolding walk color_of
  walk_all f [] colors = acyclic colors
  walk_all f (n ∷ names) colors =
      and_then (if_white (color_of n colors) (walk f [] n colors) (acyclic colors))
        (λ c. walk_all f names c)

  -- A walk goes at most as deep as there are services.
  pub search : Walk
  unfolding walk_all
  search = walk_all (length (keys services)) (sort (keys services)) []

-- strings.Join(cyc, " -> ")
unfoldable pub join_arrow : List Bytes → Bytes
join_arrow [] = []
join_arrow (p ∷ []) = p
join_arrow (p ∷ q ∷ ps) = p ++ bytes " -> " ++ join_arrow (q ∷ ps)

abbrev pub describe : Walk → Bytes
describe (acyclic colors) = []
describe (cycle p) = join_arrow p
describe out_of_fuel = []

unfoldable pub find_dependency_cycle : Dict ServiceDef → Bytes
unfolding search join_arrow
find_dependency_cycle services = describe (search services)
