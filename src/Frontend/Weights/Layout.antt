-- ===== src/Frontend/Weights/Layout.antt =====
-- The weights of the calls of each function: ranges of numbers, end to end.
use semalloc.Common.{
  ℕ, ◌+◌, ◌%◌, ◌^◌, ◌<◌, ◌≡◌, ◌≢◌, refl, sym, ◌∙◌, ap, true, false, not, ◌||◌, List, [], ◌∷◌, arith,
  inl, inr, subst, ◌==◌, if◌then◌else◌, has, update, update_self, update_ne, eq-cases, Bool-cases,
}
use semalloc.Frontend.Weights.{CallGraph, Weights, lay_out, weigh_function, weigh}

-- The sum that is added up over the calls of a list, without wrap-around.
abbrev pub total : (outbound callee : ℕ → ℕ) → List ℕ → ℕ
total outbound callee [] = 0
total outbound callee (p ∷ ps) = outbound (callee p) + 1 + total outbound callee ps

-- Each weight is the sum over the calls before it.
abbrev pub LaidOut : (weight outbound callee : ℕ → ℕ) → List ℕ → ℕ → ℕ → Type 0
LaidOut weight outbound callee [] from to = from ≡ to
LaidOut weight outbound callee (p ∷ ps) from to =
    (weight p ≡ from) × LaidOut weight outbound callee ps (from + (outbound (callee p) + 1)) to

-- No call stands twice in a list.
abbrev pub AllDistinct : List ℕ → Type 0
AllDistinct [] = Unit {0}
AllDistinct (p ∷ ps) = (has p ps ≡ false) × AllDistinct ps

module _ (g : CallGraph) where
  -- Weights of calls that are not in the list stay.
  lay_out-rest :
      (outbound : ℕ → ℕ) (ps : List ℕ) (n : ℕ) (weight : ℕ → ℕ) (q : ℕ)
      → has q ps ≡ false
      → (lay_out g outbound ps n weight).1 q ≡ weight q
  unfolding lay_out
  lay_out-rest outbound [] n weight q out = refl
  lay_out-rest outbound (p ∷ ps) n weight q out =
      lay_out-rest outbound ps _ _ q (ground arith) ∙ update_ne weight p q n (ground arith)

  lay_out-LaidOut :
      (outbound : ℕ → ℕ) (ps : List ℕ) (n : ℕ) (weight : ℕ → ℕ)
      → AllDistinct ps
      → n + total outbound g.callee ps < 2 ^ 32
      → let r = lay_out g outbound ps n weight in LaidOut r.1 outbound g.callee ps n r.0
  unfolding lay_out
  lay_out-LaidOut outbound [] n weight d small = refl
  lay_out-LaidOut outbound (p ∷ ps) n weight d small =
      let k = outbound (g.callee p) in
      let next : (if not (k == 0) then n + (k + 1) else n + 1) % 2 ^ 32 ≡ n + (k + 1) =
        ground arith in
      subst (λ (r : ℕ × (ℕ → ℕ)). LaidOut r.1 outbound g.callee (p ∷ ps) n r.0)
        (sym (ap (λ m. lay_out g outbound ps m (update weight p n)) next))
        (
          lay_out-rest outbound ps (n + (k + 1)) (update weight p n) p d.0 ∙ update_self weight p n,
          lay_out-LaidOut outbound ps (n + (k + 1)) (update weight p n) d.1 (omega arith),
        )

  -- Only the weights of the list and the outbound counts of its callees matter.
  LaidOut-same :
      (w w' o o' : ℕ → ℕ) (ps : List ℕ) (from to : ℕ)
      → ((p : ℕ) → has p ps ≡ true → (w' p ≡ w p) × (o' (g.callee p) ≡ o (g.callee p)))
      → LaidOut w o g.callee ps from to
      → LaidOut w' o' g.callee ps from to
  LaidOut-same w w' o o' [] from to same v = v
  LaidOut-same w w' o o' (p ∷ ps) from to same v =
      let (e, e') = same p (ground arith) in
      (
        e ∙ v.0,
        rw e' (
            LaidOut-same w w' o o' ps (from + (o (g.callee p) + 1)) to
              (λ q h. same q (ground arith)) v.1),
      )

  -- The calls of a function that was weighed have their ranges.
  unfoldable pub IsWeighed : Weights → ℕ → Type 0
  IsWeighed w f = LaidOut w.edge_weight w.outbound g.callee (g.callees f) 0 (w.outbound f)

  -- What the passes before give: each call is in the list of its caller alone and once.
  pub record IsCallGraph (caller : ℕ → ℕ) : Type 0 where
    pub owned : (f p : ℕ) → has p (g.callees f) ≡ true → caller p ≡ f
    pub once : (f : ℕ) → AllDistinct (g.callees f)

  -- A topological order: no function comes twice, and callees come before their callers.
  abbrev pub Ordered : List ℕ → List ℕ → Type 0
  Ordered done [] = Unit {0}
  Ordered done (f ∷ order) =
      (has f done ≡ false)
      × ((p : ℕ) → has p (g.callees f) ≡ true → has (g.callee p) done ≡ true)
      × Ordered (f ∷ done) order

  -- The sums fit in 32 bits.
  abbrev pub AllSmall : List ℕ → Weights → Type 0
  AllSmall [] w = Unit {0}
  AllSmall (f ∷ order) w =
      (total w.outbound g.callee (g.callees f) < 2 ^ 32) × AllSmall order (weigh_function g f w)

  record Weighed (done : List ℕ) (w : Weights) : Type 0 where
    ranges : (f : ℕ) → has f done ≡ true → IsWeighed w f
    closed :
        (f p : ℕ) → has f done ≡ true → has p (g.callees f) ≡ true → has (g.callee p) done ≡ true

  apart : (done : List ℕ) (f h : ℕ) → has f done ≡ false → has h done ≡ true → f ≢ h
  apart done f h out here e = ground (arith, out, here, ap (λ k. has k done) e)

  weigh_function-Weighed :
      (caller : ℕ → ℕ) (done : List ℕ) (f : ℕ) (w : Weights)
      → IsCallGraph caller
      → Weighed done w
      → has f done ≡ false
      → ((p : ℕ) → has p (g.callees f) ≡ true → has (g.callee p) done ≡ true)
      → total w.outbound g.callee (g.callees f) < 2 ^ 32
      → Weighed (f ∷ done) (weigh_function g f w)
  unfolding weigh_function IsWeighed
  weigh_function-Weighed caller done f w c v out below small = record {
    ranges = λ h here. elim (eq-cases f h) [
      | inl e ↦ subst IsHere e here'
      | inr ne ↦ others h ne (ground arith)
    ];
    closed = λ h p here q. elim (eq-cases f h) [
      | inl e ↦ ground (arith, below p (rw e q))
      | inr ne ↦ ground (arith, v.closed h p (ground arith) q)
    ];
  }
    where
      r : ℕ × (ℕ → ℕ)
      r = lay_out g w.outbound (g.callees f) 0 w.edge_weight

      IsHere : ℕ → Type 0
      IsHere h =
          LaidOut r.1 (update w.outbound f r.0) g.callee (g.callees h) 0 (update w.outbound f r.0 h)

      here' : IsHere f
      here' = rw (update_self w.outbound f r.0) (
          LaidOut-same r.1 r.1 w.outbound (update w.outbound f r.0) (g.callees f) 0 r.0
            (λ p q. (
              refl,
              update_ne w.outbound f (g.callee p) r.0 (apart done f (g.callee p) out (below p q)),
            ))
            (lay_out-LaidOut w.outbound (g.callees f) 0 w.edge_weight (c.once f)
              (omega (arith, small))))

      foreign : (h p : ℕ) → f ≢ h → has p (g.callees h) ≡ true → has p (g.callees f) ≡ false
      foreign h p ne q = elim (Bool-cases (has p (g.callees f))) [
        | inl q' ↦ absurd (ne (sym (c.owned f p q') ∙ c.owned h p q))
        | inr no' ↦ no'
      ]

      others : (h : ℕ) → f ≢ h → has h done ≡ true → IsHere h
      others h ne here = rw (update_ne w.outbound f h r.0 ne) (
          LaidOut-same w.edge_weight r.1 w.outbound (update w.outbound f r.0) (g.callees h) 0
            (w.outbound h)
            (λ p q. (
              lay_out-rest w.outbound (g.callees f) 0 w.edge_weight p (foreign h p ne q),
              update_ne w.outbound f (g.callee p) r.0
                  (apart done f (g.callee p) out (v.closed h p here q)),
            ))
            (v.ranges h here))

  weigh-Weighed :
      (caller : ℕ → ℕ) (order done : List ℕ) (w : Weights)
      → IsCallGraph caller
      → Weighed done w
      → Ordered done order
      → AllSmall order w
      → (f : ℕ) → (has f done || has f order) ≡ true
      → IsWeighed (weigh g order w) f
  unfolding weigh
  weigh-Weighed caller [] done w c v o small f here = v.ranges f (ground arith)
  weigh-Weighed caller (h ∷ order) done w c v o small f here =
      weigh-Weighed caller order (h ∷ done) (weigh_function g h w) c
        (weigh_function-Weighed caller done h w c v o.0 o.1 small.0) o.2 small.1 f (ground arith)

  -- In a topological order, with sums below 2 ^ 32, each call of a function in the order gets the sum
  -- over the calls before it in its caller, and each function the sum over all its calls.
  pub weigh-IsWeighed :
      (caller : ℕ → ℕ) (order : List ℕ) (w : Weights)
      → IsCallGraph caller
      → Ordered [] order
      → AllSmall order w
      → (f : ℕ) → has f order ≡ true
      → IsWeighed (weigh g order w) f
  weigh-IsWeighed caller order w c o small f here =
      weigh-Weighed caller order [] w c
        (record {
          ranges = λ h e. absurd (ground arith);
          closed = λ h p e q. absurd (ground arith);
        })
        o small f here
