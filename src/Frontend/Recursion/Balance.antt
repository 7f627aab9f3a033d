-- ===== src/Frontend/Recursion/Balance.antt =====
-- The offset and the loop layer after a sequence of calls.
use semalloc.Common.{
  ℕ, suc, ◌^◌, ◌<◌, ◌≡◌, refl, ◌∙◌, subst, Bool, true, false, ◌&&◌, Option, none, some, arith, inl,
  inr, ltb, update, add64, sub64, Bool-cases,
}
use semalloc.Frontend.Recursion.{
  Track, Ending, returned, normal_dest, unwind_dest, Calls, done, in_loop, out_bound, in_bound,
  run_calls, before_in_loop, after_in_loop, before_out_bound, after_out_bound, after_in_bound,
  increase_loop_layer, decrease_loop_layer, css_recursive_stack_bound,
}

-- An end after which the block has code.
abbrev pub lands : Ending → Bool
lands returned = true
lands normal_dest = false
lands unwind_dest = true

-- Recursive calls nested so deep that their frames fit on the stack above the offset, none of which is
-- an invoke that goes on to its normal destination.
unfoldable pub fits : ℕ → Calls → Bool
fits offset done = true
fits offset (in_loop frame ending inside after) =
    ltb offset css_recursive_stack_bound
    && (lands ending && (fits (suc offset) inside && fits offset after))
fits offset (out_bound entries inside after) = fits offset inside && fits offset after
fits offset (in_bound inside after) = fits offset inside && fits offset after

pub record Balanced (t u : Track) : Type 0 where
  pub offset : u.recursive_offset ≡ t.recursive_offset
  pub layer : u.loop_layer ≡ t.loop_layer

abbrev pub Outcome : Track → Bool → Option Track → Type 0
Outcome t true r = (u : Track) × (r ≡ some u) × Balanced t u
Outcome t false r = r ≡ none

-- A run from a track with the same offset and layer.
Outcome-from :
    (t u : Track) (b : Bool) (r : Option Track) → Balanced t u → Outcome u b r → Outcome t b r
Outcome-from t u false r same e = e
Outcome-from t u true r same (v, e, kept) =
    (v, e, record { offset = kept.offset ∙ same.offset; layer = kept.layer ∙ same.layer })

after-Outcome :
    (c : Calls) (t u : Track)
    → Balanced t u
    → Outcome u (fits u.recursive_offset c) (run_calls c u)
    → Outcome t (fits t.recursive_offset c) (run_calls c u)
after-Outcome c t u same out =
    subst (λ k. Outcome t (fits k c) (run_calls c u)) same.offset
      (Outcome-from t u (fits u.recursive_offset c) (run_calls c u) same out)

-- One run after another.
Outcome-then :
    (t u : Track) (b b' : Bool) (r : Option Track) (k : Track → Option Track)
    → Outcome u b r
    → ((v : Track) → Balanced u v → Outcome t b' (k v))
    → Outcome t (b && b') (elim r [ none ↦ none | some v ↦ k v ])
Outcome-then t u false b' r k e next = rw e refl
Outcome-then t u true b' r k (v, e, kept) next = rw e (next v kept)

-- A recursive call that has returned to its caller, and the calls after it.
ended-Outcome :
    (ending : Ending) (t u : Track) (a b : Bool) (r : Option Track) (after : Calls)
    → Outcome u a r
    → ((v : Track)
        → Balanced u v
        → Outcome t b
            (run_calls after (record v { recursive_offset = sub64 v.recursive_offset 1 })))
    → Outcome t (lands ending && (a && b)) (elim r [
      | none ↦ none
      | some v ↦ elim (after_in_loop ending v) [ none ↦ none | some w ↦ run_calls after w ]
    ])
unfolding after_in_loop
ended-Outcome returned t u a b r after out next = Outcome-then t u a b r _ out next
ended-Outcome unwind_dest t u a b r after out next = Outcome-then t u a b r _ out next
ended-Outcome normal_dest t u a b none after out next = refl
ended-Outcome normal_dest t u a b (some v) after out next = refl

-- For 64-bit words, a sequence of calls, with calls nested in them, returns when its recursive calls
-- fit on the stack of 1000 frames above the offset and none of them is an invoke that goes on to its
-- normal destination; the offset into the stack and the loop layer are then as they were. Another
-- sequence runs into a write past the stack or into a block without an end.
pub run_calls-Outcome :
    (c : Calls) (t : Track)
    → t.recursive_offset < 2 ^ 64
    → t.loop_layer < 2 ^ 64
    → Outcome t (fits t.recursive_offset c) (run_calls c t)
unfolding run_calls fits before_in_loop before_out_bound after_out_bound after_in_bound
    increase_loop_layer decrease_loop_layer
run_calls-Outcome done t o l = (t, refl, record { offset = refl; layer = refl })
run_calls-Outcome (in_loop frame ending inside after) t o l =
    elim (Bool-cases (ltb t.recursive_offset css_recursive_stack_bound)) [
      | inr full ↦ rw (full, run_calls, fits) refl
      | inl room ↦
          let u : Track = record t {
            recursive_stack = update t.recursive_stack t.recursive_offset frame;
            recursive_offset = add64 t.recursive_offset 1;
          } in
          let b = run_calls-Outcome inside u (omega arith) l in
          let room' : t.recursive_offset < 1000 = ground (arith, room) in
          let deeper : u.recursive_offset ≡ suc t.recursive_offset = omega (arith, room') in
          rw (room, run_calls, fits)
            (ended-Outcome ending t u (fits (suc t.recursive_offset) inside)
              (fits t.recursive_offset after) (run_calls inside u) after
              (subst (λ k. Outcome u (fits k inside) (run_calls inside u)) deeper b)
              λ v kept.
                let w : Track = record v { recursive_offset = sub64 v.recursive_offset 1 } in
                let same : Balanced t w = record {
                  offset = omega (arith, kept.offset, room');
                  layer = kept.layer;
                } in
                after-Outcome after t w same (
                  run_calls-Outcome after w (omega (arith, same.offset))
                    (omega (arith, same.layer))))
    ]
run_calls-Outcome (out_bound entries inside after) t o l =
    let u = before_out_bound entries t in
    Outcome-then t u (fits t.recursive_offset inside) (fits t.recursive_offset after)
      (run_calls inside u) (λ v. run_calls after (after_out_bound v))
      (run_calls-Outcome inside u o (omega arith))
      λ v kept.
        let w = after_out_bound v in
        let same : Balanced t w = record {
          offset = kept.offset;
          layer = omega (arith, kept.layer);
        } in
        after-Outcome after t w same
          (run_calls-Outcome after w (omega (arith, kept.offset)) (omega arith))
run_calls-Outcome (in_bound inside after) t o l =
    Outcome-then t t (fits t.recursive_offset inside) (fits t.recursive_offset after)
      (run_calls inside t) (λ v. run_calls after (after_in_bound v))
      (run_calls-Outcome inside t o l)
      λ v kept.
        let w = after_in_bound v in
        let same : Balanced t w = record { offset = kept.offset; layer = kept.layer } in
        after-Outcome after t w same
          (run_calls-Outcome after w (omega (arith, kept.offset)) (omega (arith, kept.layer)))
