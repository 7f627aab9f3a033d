-- ===== src/Examples/Sites.antt =====
-- The tables of a manager, on concrete states.
use semalloc.Common.{◌≡◌, true, false, [], ◌∷◌, some, update, for_return, arith, refl}
use semalloc.SizeClass.{compute_size_index}
use semalloc.Machine.Ensures.{Ensures, Returns}
use semalloc.Manager.DataPool.{acquire_individual_data_pool}
use semalloc.Manager.DataPool.Supply.{IsSupply, Acquired, acquire_total}
use semalloc.Manager.Lazy.{LazyTable, lazy_round, put_lazy}
use semalloc.Manager.Lazy.Count.{IsLazy}
use semalloc.Manager.Lazy.Step.{Put, put_lazy-Put}
use semalloc.Manager.Lazy.History.{put_all, lazy_answers, fresh_table, put_all-lazy_answers}
use semalloc.Manager.Individual.{allocate_individual_bibop, get_individual_bibop_by_csi}
use semalloc.Manager.Individual.Fresh.{Made, allocate_individual_bibop-Made}
use semalloc.Manager.Individual.Sites.{
  Isolated, empty-IsSites, get_individual_bibop_by_csi-Isolated,
}
use semalloc.Examples.{still_os, still_os-IsOs, small_manager, small_state}

-- Two sites, of which one is seen three times.
four_calls : lazy_answers [] (5 ∷ 7 ∷ 5 ∷ 5 ∷ []) ≡ true ∷ true ∷ true ∷ false ∷ []
unfolding lazy_answers
four_calls = refl

put_all-lazy_answers_example :
    (t : LazyTable) × (put_all fresh_table (5 ∷ 7 ∷ 5 ∷ 5 ∷ [])
      ≡ some (lazy_answers [] (5 ∷ 7 ∷ 5 ∷ 5 ∷ []), t))
put_all-lazy_answers_example =
    put_all-lazy_answers (5 ∷ 7 ∷ 5 ∷ 5 ∷ [])
      (
        (λ e. omega (arith, e)),
        ((λ e. omega (arith, e)), ((λ e. omega (arith, e)), ((λ e. omega (arith, e)), tt))),
      )
      (omega arith)

abbrev five_table : LazyTable
five_table = update fresh_table 5 (record { csi = 5; occur_count = 1 })

fresh-IsLazy : IsLazy fresh_table
fresh-IsLazy = record { found = λ j lt full. absurd (full refl) }

put_lazy-Put_example : Put fresh_table 5 true five_table
unfolding put_lazy for_return lazy_round
put_lazy-Put_example =
    put_lazy-Put fresh_table 5 true five_table fresh-IsLazy (λ e. omega (arith, e)) refl

small-IsSupply : IsSupply small_manager
small-IsSupply = record { pool = omega arith; aligned = refl; user_half = omega arith }

acquire_total_example :
    Returns (Acquired small_state) (acquire_individual_data_pool still_os small_state)
acquire_total_example =
    acquire_total still_os small_state still_os-IsOs small-IsSupply (omega arith)

allocate_individual_bibop-Made_example :
    Ensures (Made small_state 128) (allocate_individual_bibop still_os 128 small_state)
allocate_individual_bibop-Made_example =
    allocate_individual_bibop-Made still_os 128 small_state (omega arith)

get_individual_bibop_by_csi-Isolated_example :
    Ensures
      (Isolated small_state 9 (compute_size_index 72))
      (get_individual_bibop_by_csi still_os 9 72 small_state)
get_individual_bibop_by_csi-Isolated_example =
    get_individual_bibop_by_csi-Isolated still_os 9 72 small_state
      (empty-IsSites small_state refl (omega arith)) (λ e. omega (arith, e))
