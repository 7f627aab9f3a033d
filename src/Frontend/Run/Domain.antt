-- ===== src/Frontend/Run/Domain.antt =====
-- The functions that have calls in the maps of the pass, before and after the contraction of cycles.
use semalloc.Common.{
  ℕ, ◌≡◌, ◌≢◌, ◌∙◌, true, false, List, [], ◌∷◌, ◌++◌, arith, inl, inr, ap, has, eq-cases,
  List-cases,
}
use semalloc.Frontend.Graph.{Calls}
use semalloc.Frontend.Traverse.Ends.{IsDomain}
use semalloc.Frontend.Cycles.{Contracted, move_calls, contract_cycles}
use semalloc.Frontend.Cycles.Contract.{has-++, move_members, move_cycles, contract_cycles-move}
use semalloc.Frontend.Run.{names_of}

-- A list without members is empty.
pub IsDomain-nonempty :
    (calls : Calls) (fs : List ℕ)
    → ((f p : ℕ) → has p (calls f) ≡ true → has f fs ≡ true)
    → IsDomain calls fs
IsDomain-nonempty calls fs inside f out = elim (List-cases (calls f)) [
  | inl e ↦ e
  | inr (p, ps, e) ↦ absurd (ground (arith, inside f p (ap (has p) e ∙ ground arith), out))
]

-- Calls are moved to the names only.
move_calls-empty :
    (name m : ℕ) (calls : Calls) (f : ℕ) → name ≢ f → calls f ≡ [] → move_calls name m calls f ≡ []
unfolding move_calls
move_calls-empty name m calls f ne e = elim (eq-cases m f) [
  | inl same ↦ ground arith
  | inr other ↦ ground (arith, e)
]

move_members-empty :
    (name : ℕ) (ms : List ℕ) (calls : Calls) (f : ℕ)
    → name ≢ f
    → calls f ≡ []
    → move_members name ms calls f ≡ []
move_members-empty name [] calls f ne e = e
move_members-empty name (m ∷ ms) calls f ne e =
    move_members-empty name ms (move_calls name m calls) f ne (move_calls-empty name m calls f ne e)

move_cycles-empty :
    (cs : List (ℕ × List ℕ)) (calls : Calls) (f : ℕ)
    → has f (names_of cs) ≡ false
    → calls f ≡ []
    → move_cycles cs calls f ≡ []
move_cycles-empty [] calls f out e = e
move_cycles-empty ((name, ms) ∷ cs) calls f out e =
    move_cycles-empty cs (move_members name ms calls) f (ground (arith, out))
      (move_members-empty name ms calls f (λ same. ground (arith, same, out)) e)

pub contract_cycles-IsDomain :
    (cs : List (ℕ × List ℕ)) (s : Contracted) (fs : List ℕ)
    → IsDomain s.function_map fs
    → IsDomain s.flipped fs
    → IsDomain (contract_cycles cs s).function_map (names_of cs ++ fs)
      × IsDomain (contract_cycles cs s).flipped (names_of cs ++ fs)
contract_cycles-IsDomain cs s fs dom flipped_dom =
    let (a, b) = contract_cycles-move cs s in
    (
      λ f out.
          ap (λ k. k f) a
          ∙ move_cycles-empty cs s.function_map f (ground (arith, has-++ f (names_of cs) fs, out))
              (dom f (ground (arith, has-++ f (names_of cs) fs, out))),
      λ f out.
          ap (λ k. k f) b
          ∙ move_cycles-empty cs s.flipped f (ground (arith, has-++ f (names_of cs) fs, out))
              (flipped_dom f (ground (arith, has-++ f (names_of cs) fs, out))),
    )
