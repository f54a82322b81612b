-- ===== src/Commands/Keys/Failed.antt =====
-- `-create` of main.go where it fails.
use touchid_agent.Prelude.{Bool, List, [], ◌∷◌, ◌++◌, some, Result, ok, err, ◌≡◌, ◌⊎◌}
use touchid_agent.Text.{Text}
use touchid_agent.Key.{Key}
use touchid_agent.Policy.{CallerRule}
use touchid_agent.Policy.Parse.{parse_key_callers}
use touchid_agent.Store.{Entry, file, StoreError, generate}
use touchid_agent.Store.Label.{file_name}
use touchid_agent.Commands.{Surroundings, Machine, Failure, not_generated, ℕ, some}
use touchid_agent.Commands.Keys.{after_generate}

module _ (env : Surroundings) (label hook callers : Text) (touch : Bool) (m : Machine) where
  -- The machine is as before; or it has one file more in the store, what a failed write of the key file
  -- has left, since the removal failed too; or a key has been made and what follows has been run.
  abbrev pub Outcome : Result Failure (Unit {0}) × Machine → Type 0
  Outcome end =
      ((f : Failure) × (end ≡ (err f, m)))
      ⊎ ((e : StoreError) × (r : Text) × (part : List ℕ) × (env.faults.discard_error ≡ some r)
          × (end ≡ (
            err (not_generated e),
            record m {
              stored = m.stored ++ record { name = file_name label; node = file part } ∷ [];
            },
          )))
      ⊎ ((rules : List CallerRule) × (k : Key) × (left : List Entry) × (parse_key_callers callers
            ≡ ok rules)
          × (generate env.format env.enclave env.faults label touch rules m.stored ≡ (ok k, left))
          × (end ≡ after_generate env label touch hook k (record m { stored = left })))
