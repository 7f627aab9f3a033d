-- ===== src/Frontend/Cycles/Named.antt =====
-- The names that instrIsInaLoop gives to cycles: its two maps between cycles and members agree.
use semalloc.Common.{
  ℕ, ◌≡◌, refl, sym, ◌∙◌, true, false, Option, some, List, [], ◌∷◌, ◌++◌, arith, inl, inr, ap, has,
  update, update_self, update_ne, Bool-cases, eq-cases,
}
use semalloc.Frontend.Marking.{insert_all}
use semalloc.Frontend.Weights.Layout.{AllDistinct}
use semalloc.Frontend.Cycles.{NamedCycles, members_of, set_names, name_cycles, cycle_count}
use semalloc.Frontend.Cycles.Classify.{IsIntra}
use semalloc.Frontend.Cycles.Contract.{has-++, AllNamed, IsNamed}
use semalloc.Frontend.Cycles.Naming.{AllDistinct-++, flat}

set_names-outside :
    (name : ℕ) (ms : List ℕ) (flipped_intra : ℕ → Option ℕ) (f : ℕ)
    → has f ms ≡ false
    → set_names name ms flipped_intra f ≡ flipped_intra f
unfolding set_names
set_names-outside name [] flipped_intra f out = refl
set_names-outside name (m ∷ ms) flipped_intra f out =
    set_names-outside name ms (update flipped_intra m (some name)) f (ground arith)
    ∙ update_ne flipped_intra m f (some name) (λ e. ground (arith, e))

set_names-inside :
    (name : ℕ) (ms : List ℕ) (flipped_intra : ℕ → Option ℕ) (f : ℕ)
    → has f ms ≡ true
    → set_names name ms flipped_intra f ≡ some name
unfolding set_names
set_names-inside name [] flipped_intra f h = cc
set_names-inside name (m ∷ ms) flipped_intra f h = elim (Bool-cases (has f ms)) [
  | inl later ↦ set_names-inside name ms (update flipped_intra m (some name)) f later
  | inr now ↦
      let same : m ≡ f = ground arith in
      set_names-outside name ms (update flipped_intra m (some name)) f now
      ∙ ap (update flipped_intra m (some name)) (sym same)
      ∙ update_self flipped_intra m (some name)
]

AllNamed-set_names :
    (name : ℕ) (all ms : List ℕ) (flipped_intra : ℕ → Option ℕ)
    → ((f : ℕ) → has f ms ≡ true → has f all ≡ true)
    → AllNamed (set_names name all flipped_intra) name ms
AllNamed-set_names name all [] flipped_intra sub = tt
AllNamed-set_names name all (m ∷ ms) flipped_intra sub = (
  set_names-inside name all flipped_intra m (sub m (ground arith)),
  AllNamed-set_names name all ms flipped_intra (λ f h. sub f (ground (arith, h))),
)

AllNamed-kept :
    (name k : ℕ) (all ms : List ℕ) (flipped_intra : ℕ → Option ℕ)
    → ((f : ℕ) → has f ms ≡ true → has f all ≡ false)
    → AllNamed flipped_intra k ms
    → AllNamed (set_names name all flipped_intra) k ms
AllNamed-kept name k all [] flipped_intra apart named = tt
AllNamed-kept name k all (m ∷ ms) flipped_intra apart named = (
  set_names-outside name all flipped_intra m (apart m (ground arith)) ∙ named.0,
  AllNamed-kept name k all ms flipped_intra (λ f h. apart f (ground (arith, h))) named.1,
)

IsNamed-kept :
    (name : ℕ) (all : List ℕ) (cs : List (ℕ × List ℕ)) (flipped_intra : ℕ → Option ℕ)
    → ((f : ℕ) → has f (members_of cs) ≡ true → has f all ≡ false)
    → IsNamed flipped_intra cs
    → IsNamed (set_names name all flipped_intra) cs
IsNamed-kept name all [] flipped_intra apart named = tt
IsNamed-kept name all ((k, ms) ∷ cs) flipped_intra apart named = (
  AllNamed-kept name k all ms flipped_intra
      (λ f h. apart f (ground (arith, has-++ f ms (members_of cs), h))) named.0,
  IsNamed-kept name all cs flipped_intra
      (λ f h. apart f (ground (arith, has-++ f ms (members_of cs), h))) named.1,
)

-- The two maps agree, and a name comes from `intra_name`.
pub record IsNamedCycles (intra_name : ℕ → ℕ) (nodes : List ℕ) (n : NamedCycles) : Type 0 where
  pub intra : IsIntra n.flipped_intra (members_of n.intra)
  pub within : (f : ℕ) → has f (members_of n.intra) ≡ true → has f nodes ≡ true
  pub named : IsNamed n.flipped_intra n.intra
  pub source : (f k : ℕ) → n.flipped_intra f ≡ some k → (i : ℕ) × (k ≡ intra_name i)

module _ (intra_name : ℕ → ℕ) (mark_set nodes : List ℕ) where
  abbrev add_cycle : List ℕ → List ℕ → NamedCycles → NamedCycles
  add_cycle ms loop_set n =
      let name = intra_name (cycle_count n.intra) in
      record {
        intra = (name, ms) ∷ n.intra;
        flipped_intra = set_names name ms n.flipped_intra;
        loop_set = loop_set;
      }

  add_cycle-IsNamedCycles :
      (ms loop_set : List ℕ) (n : NamedCycles)
      → AllDistinct ms
      → ((f : ℕ) → has f ms ≡ true → has f (members_of n.intra) ≡ false)
      → ((f : ℕ) → has f ms ≡ true → has f nodes ≡ true)
      → IsNamedCycles intra_name nodes n
      → IsNamedCycles intra_name nodes (add_cycle ms loop_set n)
  add_cycle-IsNamedCycles ms loop_set n distinct apart node inv =
      let name = intra_name (cycle_count n.intra) in
      let both = λ (f : ℕ). has-++ f ms (members_of n.intra) in
      record {
        intra = record {
          distinct = AllDistinct-++ ms (members_of n.intra) distinct inv.intra.distinct apart;
          member = λ f m. elim (Bool-cases (has f ms)) [
            | inl new ↦ (name, set_names-inside name ms n.flipped_intra f new)
            | inr old ↦
                let (k, e) = inv.intra.member f (ground (arith, both f, m, old)) in
                (k, set_names-outside name ms n.flipped_intra f old ∙ e)
          ];
          listed = λ f k e. elim (Bool-cases (has f ms)) [
            | inl new ↦ ground (arith, both f, new)
            | inr old ↦ ground (
              arith,
              both f,
              inv.intra.listed f k (sym (set_names-outside name ms n.flipped_intra f old) ∙ e),
            )
          ];
        };
        within = λ f m. ground (arith, both f, m, node f, inv.within f);
        named = (
          AllNamed-set_names name ms ms n.flipped_intra (λ f h. h),
          IsNamed-kept name ms n.intra n.flipped_intra
              (λ f m. elim (Bool-cases (has f ms)) [
                | inr out ↦ out
                | inl new ↦ absurd (ground (arith, apart f new, m))
              ])
              inv.named,
        );
        source = λ f k e. elim (Bool-cases (has f ms)) [
          | inl new ↦
              let same : some name ≡ some k =
                sym (set_names-inside name ms n.flipped_intra f new) ∙ e in
              (cycle_count n.intra, ground (arith, same))
          | inr old ↦ inv.source f k (sym (set_names-outside name ms n.flipped_intra f old) ∙ e)
        ];
      }

  AllDistinct-front :
      (xs ys : List ℕ)
      → AllDistinct (xs ++ ys)
      → AllDistinct xs × AllDistinct ys × ((f : ℕ) → has f xs ≡ true → has f ys ≡ false)
  AllDistinct-front [] ys d = (tt, d, λ f m. cc)
  AllDistinct-front (x ∷ xs) ys d =
      let (a, b, c) = AllDistinct-front xs ys d.1 in
      (
        (ground (arith, has-++ x xs ys, d.0), a),
        b,
        λ f m. elim (eq-cases x f) [
          | inl e ↦ ground (arith, has-++ x xs ys, d.0, ap (λ k. has k ys) e)
          | inr ne ↦ c f (ground (arith, m))
        ],
      )

  -- When the cycles have different members, that are nodes, so have the named ones.
  pub name_cycles-IsNamedCycles :
      (cycles : List (List ℕ)) (n : NamedCycles)
      → AllDistinct (flat cycles)
      → ((f : ℕ) → has f (flat cycles) ≡ true → has f (members_of n.intra) ≡ false)
      → ((f : ℕ) → has f (flat cycles) ≡ true → has f nodes ≡ true)
      → IsNamedCycles intra_name nodes n
      → IsNamedCycles intra_name nodes (name_cycles intra_name mark_set cycles n)
  unfolding name_cycles
  name_cycles-IsNamedCycles [] n distinct apart node inv = inv
  name_cycles-IsNamedCycles ([] ∷ cs) n distinct apart node inv =
      name_cycles-IsNamedCycles cs n distinct apart node inv
  name_cycles-IsNamedCycles ((f ∷ fs) ∷ cs) n distinct apart node inv =
      let (here, later, other) = AllDistinct-front (f ∷ fs) (flat cs) distinct in
      let both = λ (g : ℕ). has-++ g (f ∷ fs) (flat cs) in
      elim (Bool-cases (has f mark_set)) [
        | inl marked ↦
            rw (marked, name_cycles)
              (name_cycles-IsNamedCycles cs (add_cycle (f ∷ fs) (insert_all (f ∷ fs) n.loop_set) n)
                later
                (λ g m.
                  ground
                    (arith, has-++ g (f ∷ fs) (members_of n.intra), other g, m, apart g, both g))
                (λ g m. node g (both g ∙ ground (arith, m)))
                (add_cycle-IsNamedCycles (f ∷ fs) (insert_all (f ∷ fs) n.loop_set) n here
                  (λ g m. apart g (both g ∙ ground (arith, m)))
                  (λ g m. node g (both g ∙ ground (arith, m))) inv))
        | inr skipped ↦
            rw (skipped, name_cycles)
              (name_cycles-IsNamedCycles cs n later (λ g m. apart g (both g ∙ ground (arith, m)))
                (λ g m. node g (both g ∙ ground (arith, m))) inv)
      ]
