-- ===== src/Network/Planner/Select/Outcome.antt =====
-- What a selection can come to: crates/jiji-network/src/planner.rs, `select_hosts`, `select_endpoints`.
use jiji.Common.{◌++◌, ◌≡◌, ◌↔◌, some, List, ◌∷◌, String, Result, ok, err, In}
use jiji.Common.Map.{Map, lookup}
use jiji.Network.Cidr.{NetworkPlanError}

-- What a selection by filters has done, by its result; `fits` says which item a filter is for.
module _ {V : Type 0} (unmatched : String → NetworkPlanError) (items : Map V)
    (filters : List String) (fits : String → String → V → Type 0) where
  abbrev pub FitsSome : String → Type 0
  FitsSome filter = (name : String) × (v : V) × (lookup name items ≡ some v) × fits filter name v

  pub data Selected : Result NetworkPlanError (List V) → Type 0 where
    none_fits :
        (before after : List String) (filter : String)
        → filters ≡ before ++ (filter ∷ after)
        → ((f : String) → In f before → FitsSome f)
        → ¬ FitsSome filter
        → Selected (err (unmatched filter))
    chosen :
        (out : List V)
        → ((f : String) → In f filters → FitsSome f)
        → ((v : V)
            → In v out ↔ (
                (name : String) × (lookup name items ≡ some v)
                × ((filter : String) × In filter filters × fits filter name v)))
        → Selected (ok out)

module _ {V : Type 0} (unmatched : String → NetworkPlanError) (items : Map V)
    (filters : List String) (fits fits' : String → String → V → Type 0)
    (same : (filter name : String) (v : V) → fits filter name v ↔ fits' filter name v) where
  FitsSome-iff :
      (f : String)
      → FitsSome unmatched items filters fits f ↔ FitsSome unmatched items filters fits' f
  FitsSome-iff f =
      (λ w. (w.0, w.1, w.2, (same f w.0 w.1).0 w.3), λ w. (w.0, w.1, w.2, (same f w.0 w.1).1 w.3))

  pub Selected-along :
      (r : Result NetworkPlanError (List V))
      → Selected unmatched items filters fits r
      → Selected unmatched items filters fits' r
  Selected-along _ (none_fits before after filter e all misses) =
      none_fits before after filter e (λ f i. (FitsSome-iff f).0 (all f i))
        (λ w. misses ((FitsSome-iff filter).1 w))
  Selected-along _ (chosen out all only) =
      chosen out (λ f i. (FitsSome-iff f).0 (all f i))
        (λ v. (
          λ i. let w = (only v).0 i in (w.0, w.1, (w.2.0, w.2.1, (same w.2.0 w.0 v).0 w.2.2)),
          λ w. (only v).1 (w.0, w.1, (w.2.0, w.2.1, (same w.2.0 w.0 v).1 w.2.2)),
        ))
