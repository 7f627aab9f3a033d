-- ===== src/Manager/Lazy.antt =====
-- tryPutToLazyPool of backend/src/MemoryManager.cc: an open-addressing table from allocation sites
-- (CSIs) to the number of times that they were seen.
pub mod Count
pub mod History
pub mod Step
use semalloc.Common.{
  ℕ, ◌+◌, ◌%◌, Bool, true, false, Option, none, some, ltb, ◌==◌, if◌then◌else◌, update, for_return,
}
use semalloc.Config.{hash, lazy_n, lazy_occur}
use semalloc.Machine.{Cmd, ok, Exit, exit}
use semalloc.Manager.{LazyElement, State}

abbrev pub LazyTable : Type 0
LazyTable = ℕ → LazyElement

-- One round of the loop: `none` goes on to the next.
unfoldable pub lazy_round : LazyTable → ℕ → ℕ → Option (Bool × LazyTable)
lazy_round t csi i =
    let index = (i + hash csi) % lazy_n in
    let e = t index in
    if e.csi == csi
    then (if ltb e.occur_count lazy_occur
        then some (true, update t index (record e { occur_count = e.occur_count + 1 }))
        else some (false, t))
    else (if e.csi == 0
        then some (true, update t index (record { csi = csi; occur_count = 1 }))
        else none)

unfoldable pub put_lazy : LazyTable → ℕ → Option (Bool × LazyTable)
put_lazy t csi = for_return lazy_n 0 (lazy_round t csi)

unfoldable pub try_put_to_lazy_pool : ℕ → Cmd State Bool
try_put_to_lazy_pool csi s = elim (put_lazy s.manager.lazy_identifiers csi) [
  | none ↦ exit Exit.lazy_full s
  | some (b, t) ↦ ok b (record s { manager = record (s.manager) { lazy_identifiers = t } })
]
