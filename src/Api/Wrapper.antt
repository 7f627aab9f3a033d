-- ===== src/Api/Wrapper.antt =====
-- backend/src/wrapper.cc: the symbols of the C library, which call the entry points through function
-- pointers. The pointers start as the css_ functions; a null pointer is first looked up by
-- mtrace_init with dlsym, whose results are a parameter.
use semalloc.Common.{ℕ, Option, none, some}
use semalloc.Machine.{Os, Cmd, pure}
use semalloc.Api.{
  World, css_malloc, css_free, css_realloc, css_calloc, css_memalign, css_posix_memalign,
  css_aligned_alloc, css_malloc_usable_size,
}

-- The function pointers that are tested before a call.
pub record Symbols (F : Type 0 → Type 0) : Type 0 where
  pub real_malloc : F (ℕ → Cmd World ℕ)
  pub real_free : F (ℕ → Cmd World (Unit {0}))
  pub real_realloc : F (ℕ → ℕ → Cmd World ℕ)
  pub real_memalign : F (ℕ → ℕ → Cmd World ℕ)
  pub real_calloc : F (ℕ → ℕ → Cmd World ℕ)
  pub real_malloc_usable_size : F (ℕ → Cmd World ℕ)

abbrev pub Pointers : Type 0
Pointers = Symbols (λ A. Option A)

-- What dlsym finds.
abbrev pub NextSymbols : Type 0
NextSymbols = Symbols (λ A. A)

unfoldable pub bound : {A : Type 0} → Option A → A → A
bound none next = next
bound (some f) next = f

module _ (os : Os) (fuel self : ℕ) where
  -- The static initialisers.
  abbrev pub first_pointers : Pointers
  first_pointers = record {
    real_malloc = some (css_malloc os fuel self);
    real_free = some (css_free os fuel self);
    real_realloc = some (css_realloc os fuel self);
    real_memalign = some (css_memalign os fuel self);
    real_calloc = some (css_calloc os fuel self);
    real_malloc_usable_size = some (css_malloc_usable_size os fuel self);
  }

  unfoldable pub aligned_alloc : ℕ → ℕ → Cmd World ℕ
  unfolding css_aligned_alloc
  aligned_alloc s s2 = css_aligned_alloc os fuel self s s2

  unfoldable pub posix_memalign : ℕ → ℕ → Cmd World (ℕ × ℕ)
  unfolding css_posix_memalign
  posix_memalign s s2 = css_posix_memalign os fuel self s s2

-- `css_valloc` and `css_pvalloc` print a message and return null.
unfoldable pub valloc : ℕ → Cmd World ℕ
valloc s = pure 0

unfoldable pub pvalloc : ℕ → Cmd World ℕ
pvalloc s = pure 0

module _ (pointers : Pointers) (next : NextSymbols) where
  unfoldable pub malloc : ℕ → Cmd World ℕ
  unfolding bound
  malloc size = bound pointers.real_malloc next.real_malloc size

  unfoldable pub free : ℕ → Cmd World (Unit {0})
  unfolding bound
  free p = bound pointers.real_free next.real_free p

  unfoldable pub realloc : ℕ → ℕ → Cmd World ℕ
  unfolding bound
  realloc p size = bound pointers.real_realloc next.real_realloc p size

  unfoldable pub memalign : ℕ → ℕ → Cmd World ℕ
  unfolding bound
  memalign alignment size = bound pointers.real_memalign next.real_memalign alignment size

  unfoldable pub calloc : ℕ → ℕ → Cmd World ℕ
  unfolding bound
  calloc nmemb size = bound pointers.real_calloc next.real_calloc nmemb size

  unfoldable pub malloc_usable_size : ℕ → Cmd World ℕ
  unfolding bound
  malloc_usable_size p = bound pointers.real_malloc_usable_size next.real_malloc_usable_size p
