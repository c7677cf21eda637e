-- ===== src/Agent/Store/Replays.antt =====
-- What `commit` leaves in a log, and the replay of a log with one more record.
use jiji.Common.{◌≡◌, refl, Bool, false, some, List, [], ◌∷◌, ◌++◌, String, arith, if◌then◌else◌}
use jiji.Common.Map.{insert}
use jiji.Agent.Membership.{verified}
use jiji.Agent.Store.{Row, Log, recorded, contents, commit, as_verified}

module _ {R : Type 0} where
  pub contents-append :
      (rows : List (Row R)) (row : Row R)
      → contents (rows ++ (row ∷ [])) ≡ contents rows ++ (row.content ∷ [])
  contents-append [] row = refl
  contents-append (x ∷ rows) row = rw (contents-append rows row) refl

  pub as_verified-append :
      (rs : List R) (r : R) → as_verified (rs ++ (r ∷ [])) ≡ as_verified rs ++ ((r, verified) ∷ [])
  as_verified-append [] r = refl
  as_verified-append (x ∷ rs) r = rw (as_verified-append rs r) refl

  pub commit-eq-some :
      (log log' : Log R) (key : String) (row : Row R) (won : Bool)
      → commit log key row won ≡ some log'
      → log' ≡ record {
        operations = log.operations ++ (row ∷ []);
        winners = if won then insert key row log.winners else log.winners;
      }
  unfolding commit
  commit-eq-some log log' key row won h = ground arith

  pub commit-eq-none :
      (log : Log R) (key : String) (row : Row R) (won : Bool)
      → recorded row.operation_id log.operations ≡ false
      → commit log key row won
        ≡ some record {
          operations = log.operations ++ (row ∷ []);
          winners = if won then insert key row log.winners else log.winners;
        }
  unfolding commit
  commit-eq-none log key row won h = rw h refl
