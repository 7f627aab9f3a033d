-- ===== src/Frontend/ConstructCg/Built.antt =====
-- What ConstructCGPass and ReduceLibraryIndirectCall do to FunctionMap, as a sequence of additions, and
-- the invariant of these.
use semalloc.Common.{
  ℕ, ◌<◌, ◌≡◌, ◌≢◌, ◌⊎◌, sym, ◌∙◌, subst, Bool, true, none, some, List, arith, inl, inr, ap, has,
  update, update_self, update_ne, Bool-cases, Option-cases, eq-cases,
}
use semalloc.Frontend.Graph.{CallPath, PathType, push_back}
use semalloc.Frontend.Graph.Agreement.{has-push_back}
use semalloc.Frontend.Weights.Layout.{AllDistinct}
use semalloc.Frontend.Cycles.Naming.{AllDistinct-push_back}
use semalloc.Frontend.ConstructCg.{FunctionMap, new_call_path, add_call_path}

-- Calls are added, each made by one of the functions named.
pub data Adds (names : List ℕ) (m : FunctionMap) : FunctionMap → Type 0 where
  unchanged : Adds names m m
  added :
      {m' m'' : FunctionMap}
      → (inst : ℕ) (indirect : Bool) (callee caller : ℕ) → Adds names m m'
      → has caller names ≡ true
      → add_call_path inst indirect callee caller m' ≡ some m''
      → Adds names m m''

pub Adds-trans :
    (names : List ℕ) {a b c : FunctionMap} → Adds names a b → Adds names b c → Adds names a c
Adds-trans names x unchanged = x
Adds-trans names x (added inst indirect callee caller y own e) =
    added inst indirect callee caller (Adds-trans names x y) own e

-- Each call stands once, with its callee, and both ends are among the functions named.
pub record IsBuilt (names : List ℕ) (m : FunctionMap) : Type 0 where
  pub keyed :
      (f p : ℕ) (ps : List ℕ) → m.entries f ≡ some ps → has p ps ≡ true → (m.paths p).callee ≡ f
  pub small : (f p : ℕ) (ps : List ℕ) → m.entries f ≡ some ps → has p ps ≡ true → p < m.count
  pub once : (f : ℕ) (ps : List ℕ) → m.entries f ≡ some ps → AllDistinct ps
  pub caller_in :
      (f p : ℕ) (ps : List ℕ)
      → m.entries f ≡ some ps
      → has p ps ≡ true
      → has (m.paths p).caller names ≡ true
  pub entry_in : (f : ℕ) (ps : List ℕ) → m.entries f ≡ some ps → has f names ≡ true

-- Injectivity of `some`.
pub some_injective : {A : Type 0} (a b : A) → some a ≡ some b → a ≡ b
some_injective a b e = ap (λ o. elim o [ none ↦ a | some x ↦ x ]) e

pub add_call_path-made :
    (inst : ℕ) (indirect : Bool) (callee caller : ℕ) (m m' : FunctionMap)
    → add_call_path inst indirect callee caller m ≡ some m'
    → (ps : List ℕ) × (m.entries callee ≡ some ps)
      × (new_call_path inst indirect callee caller ps m ≡ m')
unfolding add_call_path
add_call_path-made inst indirect callee caller m m' e = elim (Option-cases (m.entries callee)) [
  | inl out ↦ absurd (ground (arith, (rw (out, add_call_path) at e)))
  | inr (ps, here) ↦ (
    ps,
    here,
    some_injective (new_call_path inst indirect callee caller ps m) m'
        (rw (here, add_call_path) at e),
  )
]

module _ (names : List ℕ) (inst : ℕ) (indirect : Bool) (callee caller : ℕ) (old : List ℕ)
    (m : FunctionMap) (here : m.entries callee ≡ some old) where
  -- A call of an entry is an old one of this entry, or the new one.
  new_call_path-cases :
      (f p : ℕ) (ps : List ℕ)
      → IsBuilt names m
      → (new_call_path inst indirect callee caller old m).entries f ≡ some ps
      → has p ps ≡ true
      → ((qs : List ℕ) × (m.entries f ≡ some qs) × (has p qs ≡ true) × (m.count ≢ p))
        ⊎ ((m.count ≡ p) × (callee ≡ f))
  unfolding new_call_path
  new_call_path-cases f p ps inv e c = elim (eq-cases callee f) [
    | inl same ↦
        let is_new : push_back old m.count ≡ ps = some_injective (push_back old m.count) ps (
          sym (update_self m.entries callee (some (push_back old m.count)))
          ∙ ap (update m.entries callee (some (push_back old m.count))) same
          ∙ e) in
        let there = has-push_back p old m.count in
        elim (eq-cases m.count p) [
          | inl fresh ↦ inr (fresh, same)
          | inr older ↦ inl (
            old,
            ap m.entries (sym same) ∙ here,
            ground (arith, there, ap (has p) is_new, c, older),
            older,
          )
        ]
    | inr other ↦
        let kept = sym (update_ne m.entries callee f (some (push_back old m.count)) other) ∙ e in
        inl (ps, kept, c, λ k. omega (arith, k, inv.small f p ps kept c))
  ]

  new_call_path-IsBuilt :
      has caller names ≡ true
      → IsBuilt names m
      → IsBuilt names (new_call_path inst indirect callee caller old m)
  unfolding new_call_path
  new_call_path-IsBuilt own inv =
      let path : CallPath = record {
        callee = callee;
        caller = caller;
        path_type = PathType.default;
      } in
      record {
        keyed = λ f p ps e c. elim (new_call_path-cases f p ps inv e c) [
          | inl (qs, e', c', ne) ↦
              ap (λ k. k.callee) (update_ne m.paths m.count p path ne) ∙ inv.keyed f p qs e' c'
          | inr (fresh, same) ↦
              ap (λ k. (update m.paths m.count path k).callee) (sym fresh)
              ∙ ap (λ k. k.callee) (update_self m.paths m.count path)
              ∙ same
        ];
        small = λ f p ps e c. elim (new_call_path-cases f p ps inv e c) [
          | inl (qs, e', c', ne) ↦ omega (arith, inv.small f p qs e' c')
          | inr (fresh, same) ↦ omega (arith, fresh)
        ];
        once = λ f ps e. elim (eq-cases callee f) [
          | inl same ↦
              let is_new : push_back old m.count ≡ ps = some_injective (push_back old m.count) ps (
                sym (update_self m.entries callee (some (push_back old m.count)))
                ∙ ap (update m.entries callee (some (push_back old m.count))) same
                ∙ e) in
              subst AllDistinct is_new (
                AllDistinct-push_back old m.count (inv.once callee old here)
                  (elim (Bool-cases (has m.count old)) [
                    | inr out ↦ out
                    | inl there ↦ absurd (omega (arith, inv.small callee m.count old here there))
                  ]))
          | inr other ↦
              inv.once f ps
                (sym (update_ne m.entries callee f (some (push_back old m.count)) other) ∙ e)
        ];
        caller_in = λ f p ps e c. elim (new_call_path-cases f p ps inv e c) [
          | inl (qs, e', c', ne) ↦
              ap (λ k. has k.caller names) (update_ne m.paths m.count p path ne)
              ∙ inv.caller_in f p qs e' c'
          | inr (fresh, same) ↦
              ap (λ k. has (update m.paths m.count path k).caller names) (sym fresh)
              ∙ ap (λ k. has k.caller names) (update_self m.paths m.count path)
              ∙ own
        ];
        entry_in = λ f ps e. elim (eq-cases callee f) [
          | inl same ↦ ap (λ k. has k names) (sym same) ∙ inv.entry_in callee old here
          | inr other ↦
              inv.entry_in f ps
                (sym (update_ne m.entries callee f (some (push_back old m.count)) other) ∙ e)
        ];
      }

pub Adds-IsBuilt :
    (names : List ℕ) (m : FunctionMap)
    → IsBuilt names m
    → {m' : FunctionMap} → Adds names m m'
    → IsBuilt names m'
Adds-IsBuilt names m inv unchanged = inv
Adds-IsBuilt names m inv (added {m'} {m''} inst indirect callee caller steps own e) =
    let (old, here, same) = add_call_path-made inst indirect callee caller m' m'' e in
    subst (IsBuilt names) same (
      new_call_path-IsBuilt names inst indirect callee caller old m' here own
        (Adds-IsBuilt names m inv steps))
