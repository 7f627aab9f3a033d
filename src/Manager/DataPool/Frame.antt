-- ===== src/Manager/DataPool/Frame.antt =====
-- What acquiring a chunk leaves alone.
use semalloc.Common.{◌≡◌, ◌∙◌, arith, ◌==◌}
use semalloc.Machine.{Os, pure, ◌>>◌}
use semalloc.Machine.Ensures.{
  Ensures, Returns, Returns-Ensures, Ensures-bind, Ensures-mono, Ensures-if,
}
use semalloc.Manager.{State, allocate_memory_pool, mmap}
use semalloc.Manager.DataPool.{take_chunk, next_pool, acquire_individual_data_pool}

-- The parts of the manager and of the heap that have nothing to do with the data pools.
pub record Kept (s s' : State) : Type 0 where
  pub slots : s'.manager.individual_bibop ≡ s.manager.individual_bibop
  pub metadata : s'.manager.metadata_pool ≡ s.manager.metadata_pool
  pub lazy : s'.manager.lazy_identifiers ≡ s.manager.lazy_identifiers
  pub globals : s'.manager.global_bibop ≡ s.manager.global_bibop
  pub listed : s'.manager.free_list ≡ s.manager.free_list
  pub thread : s'.manager.thread_id ≡ s.manager.thread_id
  pub bibops : s'.heap.bibops ≡ s.heap.bibops
  pub stats : s'.heap.stats ≡ s.heap.stats

pub Kept-trans : (r s t : State) → Kept r s → Kept s t → Kept r t
Kept-trans r s t a b = record {
  slots = b.slots ∙ a.slots;
  metadata = b.metadata ∙ a.metadata;
  lazy = b.lazy ∙ a.lazy;
  globals = b.globals ∙ a.globals;
  listed = b.listed ∙ a.listed;
  thread = b.thread ∙ a.thread;
  bibops = b.bibops ∙ a.bibops;
  stats = b.stats ∙ a.stats;
}

pub take_chunk-Kept : (s : State) → Returns (λ _. Kept s) (take_chunk s)
unfolding take_chunk
take_chunk-Kept s = ground arith

next_pool-Kept : (os : Os) (s : State) → Ensures (λ _. Kept s) (next_pool os s)
unfolding next_pool allocate_memory_pool mmap
next_pool-Kept os s = ground arith

take_after-Kept : (s t : State) → Kept s t → Ensures (λ _. Kept s) (take_chunk t)
take_after-Kept s t k =
    Ensures-mono (λ _. Kept t) (λ _. Kept s) (take_chunk t)
      (Returns-Ensures (λ _. Kept t) (take_chunk t) (take_chunk-Kept t))
      λ _ u k'. Kept-trans s t u k k'

-- Acquiring a chunk changes the data pools, the mappings and fresh memory, and nothing else.
pub acquire-Kept : (os : Os) (s : State) → Ensures (λ _. Kept s) (acquire_individual_data_pool os s)
unfolding acquire_individual_data_pool
acquire-Kept os s =
    Ensures-bind (λ _. Kept s) (λ _. Kept s) (take_chunk s) _
      (Returns-Ensures (λ _. Kept s) (take_chunk s) (take_chunk-Kept s))
      λ chunk t k.
        Ensures-if (λ _. Kept s) (chunk == 0) (next_pool os >> take_chunk) (pure chunk) t
          (λ _.
            Ensures-bind (λ _. Kept s) (λ _. Kept s) (next_pool os t) _
              (Ensures-mono (λ _. Kept t) (λ _. Kept s) (next_pool os t) (next_pool-Kept os t)
                λ _ u k'. Kept-trans s t u k k')
              λ _ u k'. take_after-Kept s u k')
          (λ _. k)
