-- ===== src/Frontend/Recursion.antt =====
-- frontend/src/RecursiveHelper.cc: the code that the pass inserts around recursive calls and calls in
-- loops, as it runs before and after such a call. A result `none` is a run that the language gives no
-- meaning: a write past an array, or a basic block without an end. Exceptions that leave a call
-- instruction, where no inserted code runs, are left out, and so are jumps from other blocks into the
-- blocks after an invoke.
pub mod Balance
use semalloc.Common.{ℕ, Option, none, some, ltb, if◌then◌else◌, update, add64, sub64}
use semalloc.Frontend.Request.{css_hash_function}

-- CSSRecursiveOffsetTrack, CSSRecursiveStack, CSSRecursiveHash and CSSLoopLayerTrack.
pub record Track : Type 0 where
  pub recursive_offset : ℕ
  pub recursive_stack : ℕ → ℕ
  pub recursive_hash : ℕ
  pub loop_layer : ℕ

unfoldable pub increase_loop_layer : Track → Track
increase_loop_layer t = record t { loop_layer = add64 t.loop_layer 1 }

unfoldable pub decrease_loop_layer : Track → Track
decrease_loop_layer t = record t { loop_layer = sub64 t.loop_layer 1 }

abbrev pub css_recursive_stack_bound : ℕ
css_recursive_stack_bound = 1000

-- Before a recursive call: the address of the frame goes on the stack, an array of 1000 words. There
-- is no test of the offset.
unfoldable pub before_in_loop : ℕ → Track → Option Track
before_in_loop frame t =
    if ltb t.recursive_offset css_recursive_stack_bound
    then some (record t {
      recursive_stack = update t.recursive_stack t.recursive_offset frame;
      recursive_offset = add64 t.recursive_offset 1;
    })
    else none

-- How a call ends: a call instruction returns, or an invoke goes on to its normal or to its unwind
-- destination.
pub data Ending : Type 0 where
  returned normal_dest unwind_dest : Ending

-- After a recursive call. The builder of the new normal destination has no insert point: neither the
-- decrement nor the branch is put into that block, which stays empty.
unfoldable pub after_in_loop : Ending → Track → Option Track
after_in_loop returned t = some (record t { recursive_offset = sub64 t.recursive_offset 1 })
after_in_loop normal_dest t = none
after_in_loop unwind_dest t = some (record t { recursive_offset = sub64 t.recursive_offset 1 })

-- Before a call that leaves a recursion. `entries` is what the value that is loaded from
-- CSSRecursiveStack points to.
unfoldable pub before_out_bound : (ℕ → ℕ) → Track → Track
unfolding increase_loop_layer
before_out_bound entries t =
    increase_loop_layer (record t { recursive_hash = css_hash_function entries t.recursive_offset })

unfoldable pub after_out_bound : Track → Track
unfolding decrease_loop_layer
after_out_bound t = decrease_loop_layer t

-- After a call that enters a recursion.
unfoldable pub after_in_bound : Track → Track
after_in_bound t = record t { recursive_hash = 0 }

-- A sequence of calls, each with the calls made inside it and the calls after it. After calls that
-- leave or enter a recursion the same code stands on all ways out.
pub data Calls : Type 0 where
  done : Calls
  in_loop : (frame : ℕ) → (ending : Ending) → (inside after : Calls) → Calls
  out_bound : (entries : ℕ → ℕ) → (inside after : Calls) → Calls
  in_bound : (inside after : Calls) → Calls

unfoldable pub run_calls : Calls → Track → Option Track
unfolding before_in_loop after_in_loop before_out_bound after_out_bound after_in_bound
run_calls done t = some t
run_calls (in_loop frame ending inside after) t = elim (before_in_loop frame t) [
  | none ↦ none
  | some t1 ↦ elim (run_calls inside t1) [
    | none ↦ none
    | some t2 ↦ elim (after_in_loop ending t2) [ none ↦ none | some t3 ↦ run_calls after t3 ]
  ]
]
run_calls (out_bound entries inside after) t =
    elim (run_calls inside (before_out_bound entries t)) [
      | none ↦ none
      | some t2 ↦ run_calls after (after_out_bound t2)
    ]
run_calls (in_bound inside after) t = elim (run_calls inside t) [
  | none ↦ none
  | some t2 ↦ run_calls after (after_in_bound t2)
]
