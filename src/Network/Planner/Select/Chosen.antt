-- ===== src/Network/Planner/Select/Chosen.antt =====
-- What a selection takes: crates/jiji-network/src/planner.rs, `select_hosts`,
-- `select_endpoints`.
use jiji.Common.{
  ◌++◌, ap, Result-cases, some_inj, sym, ◌∙◌, subst, ◌≡◌, ◌↔◌, ◌⊎◌, refl, inl, inr, Bool, true,
  some, List, [], ◌∷◌, String, str_eq, eq_iff, ok, err, ok_inj, arith, Bool-cases, Option-cases,
  is_some, In,
}
use jiji.Common.Map.{Ascending, Map, lookup, insert, lookup-insert}
use jiji.Common.Keys.{keys-lookup}
use jiji.Network.Cidr.{NetworkPlanError}
use jiji.Network.Planner.Select.{Names, extend, matching, select_names, picked, select}
use jiji.Network.Planner.Select.Outcome.{FitsSome, Selected, none_fits, chosen}

extend-In :
    (name : String) (names : List String) (selected : Names)
    → (is_some (lookup name (extend names selected)) ≡ true)
      ↔ (In name names ⊎ (is_some (lookup name selected) ≡ true))
unfolding extend
extend-In name [] selected = (λ h. inr h, λ s. elim s [ inl i ↦ elim i [ ] | inr h ↦ h ])
extend-In name (n ∷ names) selected =
    let step = lookup-insert name n tt selected in
    let later = extend-In name names (insert n tt selected) in
    (
      λ h. elim (later.0 h) [
        | inl i ↦ inl (inr i)
        | inr k ↦ elim (Bool-cases (str_eq name n)) [
          | inl t ↦ inl (inl ((eq_iff name n).0 t))
          | inr f ↦ inr (ground (arith, step, f, k))
        ]
      ],
      λ s. later.1 (elim s [
        | inl i ↦ elim i [ inl e ↦ inr (ground (arith, step, (eq_iff name n).1 e)) | inr j ↦ inl j ]
        | inr k ↦ inr (ground (arith, step, k))
      ]),
    )

module _ {V : Type 0} (test : String → String × V → Bool) (unmatched : String → NetworkPlanError)
    (items : Map V) where
  abbrev Matched : String → Type 0
  Matched filter = (name : String) × In name (matching test unmatched items filter)

  Named : List String → Names → Names → Type 0
  Named filters before after =
      (name : String)
      → (is_some (lookup name after) ≡ true) ↔ (
          (is_some (lookup name before) ≡ true)
          ⊎ ((filter : String) × In filter filters
              × In name (matching test unmatched items filter)))

  extended-Named :
      (filter : String) (filters : List String) (before after : Names)
      → Named filters (extend (matching test unmatched items filter) before) after
      → Named (filter ∷ filters) before after
  unfolding Named
  extended-Named filter filters before after later name =
      let mid = extend-In name (matching test unmatched items filter) before in
      (
        λ k. elim ((later name).0 k) [
          | inl m ↦ elim (mid.0 m) [ inl i ↦ inr (filter, inl refl, i) | inr b ↦ inl b ]
          | inr f ↦ inr (f.0, inr f.1, f.2)
        ],
        λ s. (later name).1 (elim s [
          | inl b ↦ inl (mid.1 (inr b))
          | inr f ↦ elim f.1 [
            | inl e ↦ inl (
                mid.1
                  (inl (subst (λ (x : String). In name (matching test unmatched items x)) e f.2)))
            | inr i ↦ inr (f.0, i, f.2)
          ]
        ]),
      )

  List-cases : (l : List String) → (l ≡ []) ⊎ ((n : String) × (ns : List String) × (l ≡ n ∷ ns))
  List-cases [] = inl refl
  List-cases (n ∷ ns) = inr (n, ns, refl)

  select_names-Named :
      (filters : List String) (before after : Names)
      → select_names test unmatched items filters before ≡ ok after
      → Named filters before after
  unfolding select_names Named
  select_names-Named [] before after h =
      λ name. rw (← ok_inj _ _ h) (λ k. inl k, λ s. elim s [ inl k ↦ k | inr f ↦ elim f.1 [ ] ])
  select_names-Named (filter ∷ filters) before after h =
      elim (List-cases (matching test unmatched items filter)) [
        | inl n ↦ absurd (ground (arith, n, h))
        | inr m ↦ extended-Named filter filters before after (
            select_names-Named filters _ after (
              let step : select_names test unmatched items (filter ∷ filters) before
                  ≡ select_names test unmatched items filters
                      (extend (matching test unmatched items filter) before) =
                ground (arith, m.2) in
              sym step ∙ h))
      ]

  select_names-Matched :
      (filters : List String) (before after : Names)
      → select_names test unmatched items filters before ≡ ok after
      → (f : String) → In f filters
      → Matched f
  unfolding select_names
  select_names-Matched [] before after h f i = elim i [ ]
  select_names-Matched (filter ∷ filters) before after h f i =
      elim (List-cases (matching test unmatched items filter)) [
        | inl n ↦ absurd (ground (arith, n, h))
        | inr m ↦ elim i [
          | inl e ↦ (m.0, rw (e, m.2) (inl refl))
          | inr j ↦
              select_names-Matched filters (extend (m.0 ∷ m.1) before) after
                (ground (arith, m.2, h)) f j
        ]
      ]

  select_names-unmatched :
      (filters : List String) (selected : Names) (e : NetworkPlanError)
      → select_names test unmatched items filters selected ≡ err e
      → (before : List String) × (after : List String) × (filter : String) × (filters
          ≡ before ++ (filter ∷ after))
        × ((f : String) → In f before → Matched f)
        × (e ≡ unmatched filter)
        × (matching test unmatched items filter ≡ [])
  unfolding select_names
  select_names-unmatched [] selected e h = cc
  select_names-unmatched (filter ∷ filters) selected e h =
      elim (List-cases (matching test unmatched items filter)) [
        | inl n ↦ ([], filters, filter, refl, λ f i. elim i [ ], ground (arith, n, h), n)
        | inr m ↦
            let rest =
              select_names-unmatched filters (extend (m.0 ∷ m.1) selected) e
                (ground (arith, m.2, h)) in
            (
              filter ∷ rest.0,
              rest.1,
              rest.2,
              ap (λ xs. filter ∷ xs) rest.3,
              λ f i. elim i [ inl q ↦ (m.0, rw (q, m.2) (inl refl)) | inr j ↦ rest.4 f j ],
              rest.5,
              rest.6,
            )
      ]

  picked-In :
      (names : Names) (v : V)
      → In v (picked test unmatched items names)
        ↔ ((name : String) × (is_some (lookup name names) ≡ true) × (lookup name items ≡ some v))
  unfolding picked lookup
  picked-In [] v = (λ i. elim i [ ], λ n. absurd (ground (arith, n.1)))
  picked-In ((name, u) ∷ names) v =
      let later = picked-In names v in
      elim (Option-cases (lookup name items)) [
        | inl n ↦
            let same : picked test unmatched items ((name, u) ∷ names)
                ≡ picked test unmatched items names =
              ground (arith, n) in
            (
              λ i.
                  let found = later.0 (subst (In v) same i) in
                  (found.0, ground (arith, found.1), found.2),
              λ f.
                  subst (In v) (sym same)
                    (later.1 (f.0, ground (arith, f.1, f.2, n, eq_iff f.0 name), f.2)),
            )
        | inr w ↦
            let more : picked test unmatched items ((name, u) ∷ names)
                ≡ w.0 ∷ picked test unmatched items names =
              ground (arith, w.1) in
            (
              λ i. elim (subst (In v) more i) [
                | inl e ↦ (name, ground (arith, eq_iff name name), ground (arith, w.1, e))
                | inr j ↦ let found = later.0 j in (found.0, ground (arith, found.1), found.2)
              ],
              λ f. subst (In v) (sym more) (elim (Bool-cases (str_eq f.0 name)) [
                | inl t ↦ let e = (eq_iff f.0 name).0 t in inl (ground (arith, w.1, f.2, e))
                | inr g ↦ inr (later.1 (f.0, ground (arith, f.1, g), f.2))
              ]),
            )
      ]

  abbrev pub Passes : String → String → V → Type 0
  Passes filter name v = test filter (name, v) ≡ true

  Matched-FitsSome :
      (filters : List String) (f : String)
      → Ascending items
      → Matched f
      → FitsSome unmatched items filters Passes f
  Matched-FitsSome filters f a m =
      let w = (keys-lookup (test f) m.0 items a).0 m.1 in (m.0, w.0, w.1, w.2)

  pub select-Selected :
      (filter : String) (filters : List String)
      → Ascending items
      → Selected unmatched items
          (filter ∷ filters)
          Passes
          (select test unmatched items (filter ∷ filters))
  unfolding select lookup Named
  select-Selected filter filters a =
      elim (Result-cases (select_names test unmatched items (filter ∷ filters) [])) [
        | inl e ↦
            let bad = select_names-unmatched (filter ∷ filters) [] e.0 e.1 in
            let same : select test unmatched items (filter ∷ filters) ≡ err (unmatched bad.2) =
              ground (arith, e.1, bad.5) in
            rw same (
              none_fits bad.0 bad.1 bad.2 bad.3
                (λ f i. Matched-FitsSome (filter ∷ filters) f a (bad.4 f i))
                (λ w.
                  let i = (keys-lookup (test bad.2) w.0 items a).1 (w.1, w.2, w.3) in
                  absurd (subst (In w.0) bad.6 i)))
        | inr s ↦
            let named = select_names-Named (filter ∷ filters) [] s.0 s.1 in
            let same : select test unmatched items (filter ∷ filters)
                ≡ ok (picked test unmatched items s.0) =
              ground (arith, s.1) in
            rw same (
              chosen _
                (λ f i.
                  Matched-FitsSome (filter ∷ filters) f a
                    (select_names-Matched (filter ∷ filters) [] s.0 s.1 f i))
                (λ v. (
                  λ i.
                      let got = (picked-In s.0 v).0 i in
                      elim ((named got.0).0 got.1) [
                        | inl b ↦ absurd (ground (arith, b))
                        | inr f ↦
                            let key = (keys-lookup (test f.0) got.0 items a).0 f.2 in
                            let same : key.0 ≡ v = some_inj _ _ (sym key.1 ∙ got.2) in
                            (got.0, got.2, (f.0, f.1, rw (← same) (key.2)))
                      ],
                  λ n. (picked-In s.0 v).1 (
                    n.0,
                    (named n.0).1 (
                        inr
                          (n.2.0, n.2.1, (keys-lookup (test n.2.0) n.0 items a).1 (v, n.1, n.2.2))),
                    n.1,
                  ),
                )))
      ]
