-- ===== src/Frontend/Weights.antt =====
-- ComputeEdgeWeight of frontend/src/InstrumentIR.cc: the topological order of the relevant functions
-- and the weight of each call. Functions are numbers in the order of their names, a call is the
-- address of its CallPath, and maps that have no entry for a function give 0 or the empty list.
pub mod Contexts
pub mod Counting
pub mod Layout
pub mod Sort
pub mod Unique
use semalloc.Common.{
  ℕ, zero, suc, ◌+◌, ◌%◌, ◌^◌, Bool, true, false, not, Option, none, some, List, [], ◌∷◌, ◌==◌,
  if◌then◌else◌, update, sub64, length,
}

-- FinalCalleeMap, with the Callee of each call.
pub record CallGraph : Type 0 where
  pub callees : ℕ → List ℕ
  pub callee : ℕ → ℕ

-- The edgeWeight of each call and ComprehensiveOutboundMap.
pub record Weights : Type 0 where
  pub edge_weight : ℕ → ℕ
  pub outbound : ℕ → ℕ

-- `exit(-1)` after a message when the graph has a cycle.
pub data Sorted : Type 0 where
  sorted : List ℕ → Sorted
  cyclic : Sorted
  out_of_fuel : Sorted

unfoldable pub eliminate : ℕ → List ℕ → List ℕ
eliminate f [] = []
eliminate f (g ∷ gs) = if g == f then eliminate f gs else g ∷ eliminate f gs

-- The first function that calls no function that is left.
unfoldable pub next_function : (ℕ → ℕ) → List ℕ → Option ℕ
next_function count [] = none
next_function count (f ∷ fs) =
    let rest = next_function count fs in if count f == 0 then some f else rest

abbrev pub cons_sorted : ℕ → Sorted → Sorted
cons_sorted f (sorted fs) = sorted (f ∷ fs)
cons_sorted f cyclic = cyclic
cons_sorted f out_of_fuel = out_of_fuel

module _ (g : CallGraph) where
  -- `currentCount--` for each call of the function that was eliminated.
  unfoldable pub decrease : ℕ → List ℕ → ℕ → ℕ
  decrease f [] count = count
  decrease f (p ∷ ps) count = decrease f ps (if g.callee p == f then sub64 count 1 else count)

  unfoldable pub decrease_all : ℕ → List ℕ → (ℕ → ℕ) → ℕ → ℕ
  unfolding decrease
  decrease_all f [] count = count
  decrease_all f (h ∷ left) count =
      decrease_all f left (update count h (decrease f (g.callees h) (count h)))

  unfoldable pub sort_rounds : ℕ → List ℕ → (ℕ → ℕ) → Sorted
  unfolding eliminate next_function decrease_all
  sort_rounds fuel [] count = sorted []
  sort_rounds zero (f ∷ left) count = Sorted.out_of_fuel
  sort_rounds (suc fuel) (f ∷ left) count = elim (next_function count (f ∷ left)) [
    | none ↦ cyclic
    | some h ↦
        let left' = eliminate h (f ∷ left) in
        cons_sorted h (sort_rounds fuel left' (decrease_all h left' count))
  ]

  -- TopologicalOrder, for the functions in the order of their names.
  unfoldable pub topological_order : List ℕ → Sorted
  unfolding sort_rounds
  topological_order functions = sort_rounds (length functions) functions (λ f. length (g.callees f))

  -- The loop over the calls of one function. The weights are 32-bit words.
  unfoldable pub lay_out : (ℕ → ℕ) → List ℕ → ℕ → (ℕ → ℕ) → ℕ × (ℕ → ℕ)
  lay_out outbound [] accumulated weight = (accumulated, weight)
  lay_out outbound (p ∷ ps) accumulated weight =
      let n = outbound (g.callee p) in
      let next = if not (n == 0) then accumulated + (n + 1) else accumulated + 1 in
      lay_out outbound ps (next % 2 ^ 32) (update weight p accumulated)

  unfoldable pub weigh_function : ℕ → Weights → Weights
  unfolding lay_out
  weigh_function f w =
      let (accumulated, weight) = lay_out w.outbound (g.callees f) 0 w.edge_weight in
      record { edge_weight = weight; outbound = update w.outbound f accumulated }

  unfoldable pub weigh : List ℕ → Weights → Weights
  unfolding weigh_function
  weigh [] w = w
  weigh (f ∷ order) w = weigh order (weigh_function f w)
