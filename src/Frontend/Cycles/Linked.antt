-- ===== src/Frontend/Cycles/Linked.antt =====
-- The call graph of instrIsInaLoop after the members of the cycles have become one function.
use semalloc.Common.{
  ℕ, ◌≡◌, refl, sym, ◌∙◌, Bool, true, Option, none, some, List, inl, inr, ap, has, length, ltb,
  Option-cases,
}
use semalloc.Frontend.Graph.{Paths, CallPath, Calls}
use semalloc.Frontend.Cycles.{members_of, contract_cycles, mark_cycle_calls}
use semalloc.Frontend.Cycles.Contract.{
  IsNamed, move_cycles, contract_cycles-move, home, home-none, move_cycles-home,
}
use semalloc.Frontend.Cycles.Kept.{move_cycles-kept}
use semalloc.Frontend.Cycles.Classify.{IsFlipped, IsIntra, classify, mark_cycle_calls-classify}

-- The two maps have the same calls, each with its callee and with its caller, which are no members of
-- cycles.
pub record IsLinked (paths : Paths) (function_map flipped : Calls) (flipped_intra : ℕ → Option ℕ)
    : Type 0 where
  pub callee : (h p : ℕ) → has p (function_map h) ≡ true → (paths p).callee ≡ h
  pub caller : (h p : ℕ) → has p (flipped h) ≡ true → (paths p).caller ≡ h
  pub made : (h p : ℕ) → has p (function_map h) ≡ true → has p (flipped (paths p).caller) ≡ true
  pub called : (h p : ℕ) → has p (flipped h) ≡ true → has p (function_map (paths p).callee) ≡ true
  pub called_free : (h p : ℕ) → has p (function_map h) ≡ true → flipped_intra h ≡ none
  pub calling_free : (h p : ℕ) → has p (flipped h) ≡ true → flipped_intra h ≡ none

classify-home :
    (flipped_intra : ℕ → Option ℕ) (many : Bool) (c : CallPath)
    → ((n k : ℕ) → flipped_intra c.caller ≡ some n → flipped_intra c.callee ≡ some k → n ≡ k)
    → ((classify flipped_intra many c).callee ≡ home flipped_intra c.callee)
      × ((classify flipped_intra many c).caller ≡ home flipped_intra c.caller)
unfolding classify
classify-home flipped_intra many c one = elim (Option-cases (flipped_intra c.caller)) [
  | inl out ↦ elim (Option-cases (flipped_intra c.callee)) [
    | inl out' ↦ (rw (out, out', classify, home) refl, rw (out, out', classify, home) refl)
    | inr (k, in') ↦ (rw (out, in', classify, home) refl, rw (out, in', classify, home) refl)
  ]
  | inr (n, in') ↦ elim (Option-cases (flipped_intra c.callee)) [
    | inl out ↦ (rw (in', out, classify, home) refl, rw (in', out, classify, home) refl)
    | inr (k, in2) ↦
        (rw (in', in2, classify, home) (one n k in' in2), rw (in', in2, classify, home) refl)
  ]
]

module _ (paths : Paths) (function_map flipped : Calls) (flipped_intra : ℕ → Option ℕ)
    (cycles : List (ℕ × List ℕ)) (loop_set : List ℕ) where
  -- For a call graph in which each call stands once with its callee and once with its caller, cycles
  -- whose members are listed once and whose names are no members, and no call between two cycles: after
  -- the two loops over the members and the contraction of the maps, FunctionMap has each call with its
  -- callee and FlippedFunctionMap with its caller, by the names that the call has then, a call in one
  -- map is in the other, and no member of a cycle has calls any more.
  pub contract_cycles-IsLinked :
      IsFlipped paths function_map flipped
      → IsIntra flipped_intra (members_of cycles)
      → IsNamed flipped_intra cycles
      → ((f n : ℕ) → flipped_intra f ≡ some n → flipped_intra n ≡ none)
      → ((f p n k : ℕ)
          → has p (function_map f) ≡ true
          → flipped_intra (paths p).caller ≡ some n
          → flipped_intra (paths p).callee ≡ some k
          → n ≡ k)
      → let after =
          contract_cycles cycles
            (record { function_map = function_map; flipped = flipped; loop_set = loop_set }) in
        (paths' : Paths) × (mark_cycle_calls flipped_intra function_map flipped
            (members_of cycles)
            paths
          ≡ some paths')
        × IsLinked paths' after.function_map after.flipped flipped_intra
  contract_cycles-IsLinked graph intra named not_member apart =
      let after =
        contract_cycles cycles
          (record { function_map = function_map; flipped = flipped; loop_set = loop_set }) in
      let (paths', returns, classified) =
        mark_cycle_calls-classify flipped_intra paths function_map flipped (members_of cycles) graph
          intra in
      let (moved, moved') =
        contract_cycles-move cycles
          (record { function_map = function_map; flipped = flipped; loop_set = loop_set }) in
      let ends = λ (d p : ℕ) (c : has p (function_map d) ≡ true).
        classify-home flipped_intra (ltb 1 (length (function_map d))) (paths p)
          (λ n k. apart d p n k c) in
      let callee_home = λ (d p : ℕ) (c : has p (function_map d) ≡ true).
        ap (λ k. k.callee) (classified d p c) ∙ (ends d p c).0 in
      let caller_home = λ (d p : ℕ) (c : has p (function_map d) ≡ true).
        ap (λ k. k.caller) (classified d p c) ∙ (ends d p c).1 in
      let came = λ (h p : ℕ) (c : has p (after.function_map h) ≡ true).
        move_cycles-home flipped_intra not_member function_map cycles named intra.listed h p
          (ap (λ k. has p (k h)) (sym moved) ∙ c) in
      let went = λ (h p : ℕ) (c : has p (after.flipped h) ≡ true).
        move_cycles-home flipped_intra not_member flipped cycles named intra.listed h p
          (ap (λ k. has p (k h)) (sym moved') ∙ c) in
      (
        paths',
        returns,
        record {
          callee = λ h p c.
              let (d, member, at_home) = came h p c in
              callee_home d p member ∙ ap (home flipped_intra) (graph.callee d p member) ∙ at_home;
          caller = λ h p c.
              let (d, member, at_home) = went h p c in
              caller_home (paths p).callee p (graph.called d p member)
              ∙ ap (home flipped_intra) (graph.caller d p member)
              ∙ at_home;
          made = λ h p c.
              let (d, member, at_home) = came h p c in
              ap (λ k. has p (k (paths' p).caller)) moved'
              ∙ ap (λ k. has p (move_cycles cycles flipped k)) (caller_home d p member)
              ∙ move_cycles-kept flipped_intra not_member flipped cycles named intra.listed
                  (paths p).caller p (graph.made d p member);
          called = λ h p c.
              let (d, member, at_home) = went h p c in
              let call = graph.called d p member in
              ap (λ k. has p (k (paths' p).callee)) moved
              ∙ ap (λ k. has p (move_cycles cycles function_map k))
                  (callee_home (paths p).callee p call)
              ∙ move_cycles-kept flipped_intra not_member function_map cycles named intra.listed
                  (paths p).callee p call;
          called_free = λ h p c.
              let (d, member, at_home) = came h p c in
              ap flipped_intra (sym at_home) ∙ home-none flipped_intra not_member function_map d;
          calling_free = λ h p c.
              let (d, member, at_home) = went h p c in
              ap flipped_intra (sym at_home) ∙ home-none flipped_intra not_member function_map d;
        },
      )
