-- ===== src/Frontend/Marking/Callers.antt =====
-- The marks of doInitialization: a function is marked when it makes one of the calls to a heap
-- function, and these calls are marked.
use semalloc.Common.{ℕ, ◌≡◌, refl, Bool, false, ◌||◌, List, [], ◌∷◌, arith, has, has-insert, ◌==◌}
use semalloc.Frontend.Graph.{Paths, Calls}
use semalloc.Frontend.Marking.{Marks, mark_call, mark_callers, mark_heap_functions}

-- Some call of a list is made by the function.
abbrev makes : Paths → ℕ → List ℕ → Bool
makes paths f [] = false
makes paths f (p ∷ ps) = ((paths p).caller == f) || makes paths f ps

abbrev makes_any : Paths → Calls → ℕ → List ℕ → Bool
makes_any paths function_map f [] = false
makes_any paths function_map f (h ∷ hs) =
    makes paths f (function_map h) || makes_any paths function_map f hs

abbrev in_any : Calls → ℕ → List ℕ → Bool
in_any function_map p [] = false
in_any function_map p (h ∷ hs) = has p (function_map h) || in_any function_map p hs

module _ (paths : Paths) where
  mark_callers-set :
      (ps : List ℕ) (m : Marks) (f : ℕ)
      → has f (mark_callers paths ps m).function_mark_set
        ≡ (makes paths f ps || has f m.function_mark_set)
  unfolding mark_callers mark_call
  mark_callers-set [] m f = refl
  mark_callers-set (p ∷ ps) m f = ground (
    arith,
    mark_callers-set ps (mark_call paths p m) f,
    has-insert f (paths p).caller m.function_mark_set,
  )

  mark_callers-calls :
      (ps : List ℕ) (m : Marks) (p : ℕ)
      → ((mark_callers paths ps m).is_relevant p ≡ (has p ps || m.is_relevant p))
        × ((mark_callers paths ps m).calls_hmf p ≡ (has p ps || m.calls_hmf p))
  unfolding mark_callers mark_call
  mark_callers-calls [] m p = (refl, refl)
  mark_callers-calls (q ∷ qs) m p = ground (arith, mark_callers-calls qs (mark_call paths q m) p)

  -- After the loop over the heap functions, the marked functions are those that were marked before and
  -- those that make one of the calls to a heap function; the calls marked as relevant, and those marked
  -- as calls of a heap function, are the ones marked before and the calls to the heap functions.
  pub mark_heap_functions-Marks :
      (function_map : Calls) (heap : List ℕ) (m : Marks) (f p : ℕ)
      → (has f (mark_heap_functions paths function_map heap m).function_mark_set
          ≡ (makes_any paths function_map f heap || has f m.function_mark_set))
        × ((mark_heap_functions paths function_map heap m).is_relevant p
            ≡ (in_any function_map p heap || m.is_relevant p))
        × ((mark_heap_functions paths function_map heap m).calls_hmf p
            ≡ (in_any function_map p heap || m.calls_hmf p))
  unfolding mark_heap_functions
  mark_heap_functions-Marks function_map [] m f p = (refl, refl, refl)
  mark_heap_functions-Marks function_map (h ∷ hs) m f p = ground (
    arith,
    mark_heap_functions-Marks function_map hs (mark_callers paths (function_map h) m) f p,
    mark_callers-set (function_map h) m f,
    mark_callers-calls (function_map h) m p,
  )
