-- ===== src/Frontend/LoopMarking/Relevant.antt =====
-- MarkLoopRelevantFunctions returns, and marks only functions that lead to a function with a loop or
-- that such a function leads to.
use semalloc.Common.{
  ℕ, ◌+◌, ◌≤◌, ◌≡◌, refl, subst, Bool, true, Option, none, some, List, [], ◌∷◌, arith, inl, inr,
  has, insert, length, Option-cases, eq-cases, ◌⊎◌,
}
use semalloc.Frontend.Graph.{Paths, Calls}
use semalloc.Frontend.Traverse.{Traversal, traverse}
use semalloc.Frontend.Traverse.Ends.{total, IsDomain, traverse_returns}
use semalloc.Frontend.Traverse.Closed.{Grows, Grows-trans, round-Grows, loop_rule}
use semalloc.Frontend.Traverse.Sound.{Walk, self, onward, traverse-IsSound}
use semalloc.Frontend.Marking.Relevant.{made_by, length-total}
use semalloc.Frontend.LoopMarking.{
  queue_marked, mark_loop_parents, mark_loop_children, mark_loop_entries, replace_cycles, LoopMarks,
  mark_loop_relevant_functions,
}
use semalloc.Frontend.LoopMarking.Cycles.{
  replace_cycles-Replaced, replace_cycles-kept, replace_cycles-named,
}

abbrev pub goes_to : Paths → ℕ → ℕ
goes_to paths p = (paths p).callee

length-queue_marked :
    (next : ℕ → ℕ) (mark_set ps : List ℕ) → length (queue_marked next mark_set ps) ≤ length ps
unfolding queue_marked
length-queue_marked next mark_set [] = omega arith
length-queue_marked next mark_set (p ∷ ps) = ground (arith, length-queue_marked next mark_set ps)

queue_marked-has :
    (next : ℕ → ℕ) (mark_set ps : List ℕ) (f : ℕ)
    → has f (queue_marked next mark_set ps) ≡ true
    → (p : ℕ) × (has p ps ≡ true) × (next p ≡ f)
unfolding queue_marked
queue_marked-has next mark_set [] f h = cc
queue_marked-has next mark_set (q ∷ qs) f h = elim (eq-cases (next q) f) [
  | inl e ↦ (q, ground arith, e)
  | inr ne ↦
      let (p, member, e) = queue_marked-has next mark_set qs f (ground arith) in
      (p, ground (arith, member), e)
]

-- A marked function that leads to a function with a loop, or that one leads to.
pub data Related (paths : Paths) (function_map flipped : Calls) (mark_set loop_set : List ℕ) (f : ℕ)
    : Type 0 where
  has_loop : has f loop_set ≡ true → Related paths function_map flipped mark_set loop_set f
  leads_to :
      (e : ℕ)
      → has e loop_set ≡ true
      → Walk (made_by paths) function_map e f
      → has f mark_set ≡ true
      → Related paths function_map flipped mark_set loop_set f
  led_to :
      (e : ℕ)
      → has e loop_set ≡ true
      → Walk (goes_to paths) flipped e f
      → has f mark_set ≡ true
      → Related paths function_map flipped mark_set loop_set f

module _ (paths : Paths) (function_map flipped : Calls) (fs : List ℕ)
    (dom : IsDomain function_map fs) (flipped_dom : IsDomain flipped fs) (fuel : ℕ)
    (enough : total function_map fs + total function_map fs ≤ fuel)
    (flipped_enough : total flipped fs + total flipped fs ≤ fuel) (mark_set : List ℕ) where
  mark_loop_parents_total :
      (e : ℕ) (t : Traversal)
      → (u : Traversal) × (mark_loop_parents paths function_map flipped fuel mark_set e t ≡ some u)
  unfolding mark_loop_parents
  mark_loop_parents_total e t =
      traverse_returns (made_by paths) function_map (λ f. has f mark_set) fs dom fuel _
        (omega (
          arith,
          length-queue_marked (made_by paths) mark_set (function_map e),
          length-total function_map fs e dom,
        ))

  mark_loop_children_total :
      (e : ℕ) (t : Traversal)
      → (u : Traversal) × (mark_loop_children paths function_map flipped fuel mark_set e t ≡ some u)
  unfolding mark_loop_children
  mark_loop_children_total e t =
      traverse_returns (goes_to paths) flipped (λ f. has f mark_set) fs flipped_dom fuel _
        (omega (
          arith,
          length-queue_marked (goes_to paths) mark_set (flipped e),
          length-total flipped fs e flipped_dom,
        ))

  mark_loop_entries_total :
      (es : List ℕ) (t : Traversal)
      → (u : Traversal) × (mark_loop_entries paths function_map flipped fuel mark_set es t ≡ some u)
  unfolding mark_loop_entries
  mark_loop_entries_total [] t = (t, refl)
  mark_loop_entries_total (e ∷ es) t =
      let (u, r) = mark_loop_parents_total e (record t { visited = insert e t.visited }) in
      let (v, s) = mark_loop_children_total e u in
      let (w, rest) = mark_loop_entries_total es v in (w, rw (r, s, mark_loop_entries) rest)

module _ (paths : Paths) (function_map flipped : Calls) (fuel : ℕ)
    (mark_set loop_set : List ℕ) where
  abbrev IsRelated : ℕ → Type 0
  IsRelated = Related paths function_map flipped mark_set loop_set

  -- The marked functions are related, and the functions with loops are marked.
  record IsBetween (t : Traversal) : Type 0 where
    related : (f : ℕ) → has f t.final_set ≡ true → IsRelated f
    loops : (f : ℕ) → has f loop_set ≡ true → has f t.final_set ≡ true

  traverse-kept :
      (next : ℕ → ℕ) (calls : Calls) (keep : ℕ → Bool) (t u : Traversal)
      → traverse next calls keep fuel t ≡ some u
      → (f : ℕ) → has f t.final_set ≡ true
      → has f u.final_set ≡ true
  traverse-kept next calls keep t u h =
      (loop_rule next calls keep (Grows next calls keep t)
        (λ s f rest e g. Grows-trans next calls keep g (round-Grows next calls keep s f rest e))
        fuel t u (record { seen = λ f k. k; kept = λ f k. k; still = λ p k. k }) h).0.kept

  mark_loop_parents-IsBetween :
      (e : ℕ) (t u : Traversal)
      → has e loop_set ≡ true
      → IsBetween t
      → mark_loop_parents paths function_map flipped fuel mark_set e t ≡ some u
      → IsBetween u
  unfolding mark_loop_parents
  mark_loop_parents-IsBetween e t u loop inv h = record {
    related =
        (traverse-IsSound (made_by paths) function_map (λ f. has f mark_set)
          (Walk (made_by paths) function_map e) (λ f q path made. onward q path made) IsRelated
          (λ f path marked. leads_to e loop path marked) fuel _ u
          (record {
            queued = λ f member.
                let (q, made, same) =
                  queue_marked-has (made_by paths) mark_set (function_map e) f member in
                subst (Walk (made_by paths) function_map e) same (onward q self made);
            final = inv.related;
          })
          h).final;
    loops = λ f k.
        traverse-kept (made_by paths) function_map (λ g. has g mark_set)
          (record t { queue = queue_marked (made_by paths) mark_set (function_map e) }) u h f
          (inv.loops f k);
  }

  mark_loop_children-IsBetween :
      (e : ℕ) (t u : Traversal)
      → has e loop_set ≡ true
      → IsBetween t
      → mark_loop_children paths function_map flipped fuel mark_set e t ≡ some u
      → IsBetween u
  unfolding mark_loop_children
  mark_loop_children-IsBetween e t u loop inv h = record {
    related =
        (traverse-IsSound (goes_to paths) flipped (λ f. has f mark_set)
          (Walk (goes_to paths) flipped e) (λ f q path made. onward q path made) IsRelated
          (λ f path marked. led_to e loop path marked) fuel _ u
          (record {
            queued = λ f member.
                let (q, made, same) =
                  queue_marked-has (goes_to paths) mark_set (flipped e) f member in
                subst (Walk (goes_to paths) flipped e) same (onward q self made);
            final = inv.related;
          })
          h).final;
    loops = λ f k.
        traverse-kept (goes_to paths) flipped (λ g. has g mark_set)
          (record t { queue = queue_marked (goes_to paths) mark_set (flipped e) }) u h f
          (inv.loops f k);
  }

  mark_loop_entries-IsBetween :
      (es : List ℕ) (t u : Traversal)
      → ((e : ℕ) → has e es ≡ true → has e loop_set ≡ true)
      → IsBetween t
      → mark_loop_entries paths function_map flipped fuel mark_set es t ≡ some u
      → IsBetween u
  unfolding mark_loop_entries
  mark_loop_entries-IsBetween [] t u loops inv h = subst IsBetween (ground arith) inv
  mark_loop_entries-IsBetween (e ∷ es) t u loops inv h =
      let s = record t { visited = insert e t.visited } in
      let loop = loops e (ground arith) in
      elim (Option-cases (mark_loop_parents paths function_map flipped fuel mark_set e s)) [
        | inl stuck ↦ absurd (ground (arith, (rw (stuck, mark_loop_entries) at h)))
        | inr (v, r) ↦
            elim (Option-cases (mark_loop_children paths function_map flipped fuel mark_set e v)) [
              | inl stuck ↦ absurd (ground (arith, (rw (r, stuck, mark_loop_entries) at h)))
              | inr (w, r') ↦
                  mark_loop_entries-IsBetween es w u (λ f k. loops f (ground arith))
                    (mark_loop_children-IsBetween e v w loop
                      (mark_loop_parents-IsBetween e s v loop
                        (record { related = inv.related; loops = inv.loops }) r)
                      r')
                    (rw (r, r', mark_loop_entries) at h)
            ]
      ]

  module _ (flipped_intra : ℕ → Option ℕ) where
    pub record IsLoopMarked (m : LoopMarks) : Type 0 where
      pub no_member : (f : ℕ) → has f m.relevant_all ≡ true → flipped_intra f ≡ none
      pub sound :
          (f : ℕ)
          → has f m.relevant_all ≡ true
          → IsRelated f ⊎ ((g : ℕ) × IsRelated g × (flipped_intra g ≡ some f))
      pub loops :
          (f : ℕ) → has f loop_set ≡ true → flipped_intra f ≡ none → has f m.relevant_all ≡ true
      pub cycles :
          (f n : ℕ) → has f loop_set ≡ true → flipped_intra f ≡ some n → has n m.relevant_all ≡ true

    -- Let every function with calls be one of `fs`, the fuel twice the number of calls, and the names of
    -- the cycles no members of cycles. Then MarkLoopRelevantFunctions returns. No member of a cycle is in
    -- the set that it builds; each function in it has a loop, or is marked and leads to a function with
    -- a loop or is led to by one, or is the name of the cycle of such a function; and the functions with
    -- loops are in it, by the names of their cycles if they have one.
    pub mark_loop_relevant_functions-IsLoopMarked :
        (is_relevant : ℕ → Bool) (fs : List ℕ)
        → IsDomain function_map fs
        → IsDomain flipped fs
        → total function_map fs + total function_map fs ≤ fuel
        → total flipped fs + total flipped fs ≤ fuel
        → ((f n : ℕ) → flipped_intra f ≡ some n → flipped_intra n ≡ none)
        → (m : LoopMarks) × (mark_loop_relevant_functions paths function_map flipped fuel mark_set
              loop_set flipped_intra is_relevant
            ≡ some m)
          × IsLoopMarked m
    unfolding mark_loop_relevant_functions
    mark_loop_relevant_functions-IsLoopMarked is_relevant fs dom flipped_dom enough flipped_enough
          fresh =
        let (u, returns) =
          mark_loop_entries_total paths function_map flipped fs dom flipped_dom fuel enough
            flipped_enough mark_set loop_set
            (record {
              visited = [];
              final_set = loop_set;
              is_relevant = is_relevant;
              queue = [];
            }) in
        let between =
          mark_loop_entries-IsBetween loop_set _ u (λ e k. k)
            (record { related = λ f k. has_loop k; loops = λ f k. k }) returns in
        (
          record {
            relevant_all = replace_cycles flipped_intra u.final_set;
            is_relevant = u.is_relevant;
          },
          rw (returns, mark_loop_relevant_functions) refl,
          record {
            no_member = λ f k. (replace_cycles-Replaced flipped_intra u.final_set fresh f k).0;
            sound = λ f k. elim ((replace_cycles-Replaced flipped_intra u.final_set fresh f k).1) [
              | inl old ↦ inl (between.related f old)
              | inr (g, old, e) ↦ inr (g, between.related g old, e)
            ];
            loops = λ f k e. replace_cycles-kept flipped_intra u.final_set f e (between.loops f k);
            cycles = λ f n k e.
                replace_cycles-named flipped_intra u.final_set f n e (fresh f n e)
                  (between.loops f k);
          },
        )
