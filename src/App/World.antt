-- ===== src/App/World.antt =====
-- internal/app/service.go: what the service works on, and what its calls of the stores observe.
use tui_box.Prelude.{
  Bool, true, false, Option, none, some, List, [], ◌∷◌, Bytes, same, if◌then◌else◌,
}
use tui_box.Prelude.Results.{Result, ok, err}
use tui_box.Latency.Result.{ContextErr, Result as Measured}
use tui_box.Store.File.{Store}

-- A map with string keys.
module _ {ℓ} {V : Type ℓ} where
  unfoldable pub find : Bytes → List (Bytes × V) → Option V
  find k [] = none
  find k ((j, v) ∷ m) = if same j k then some v else find k m

  unfoldable pub erase : Bytes → List (Bytes × V) → List (Bytes × V)
  erase k [] = []
  erase k ((j, v) ∷ m) = let rest = erase k m in if same j k then rest else (j, v) ∷ rest

  abbrev pub assign : Bytes → V → List (Bytes × V) → List (Bytes × V)
  assign k v m = (k, v) ∷ m

-- The state store, the secret store, and Service.latencies.
pub record World : Type 0 where
  pub store : Store
  pub secrets : List (Bytes × Bytes)
  pub latencies : List (Bytes × Measured)

-- What other goroutines and processes do between two calls.
abbrev pub Others : Type 0
Others = World → World

-- Why a call of the secret store fails: the secret is not there, or another error and which error
-- of a context it is.
pub data SecretErr : Type 0 where
  not_found : SecretErr
  failed : Option ContextErr → SecretErr

-- What Get observes: an error of the backend, or none.
abbrev pub get_secret : Option (Option ContextErr) → Bytes → World → Result SecretErr Bytes
get_secret (some cause) k w = err (failed cause)
get_secret none k w = elim (find k w.secrets) [ none ↦ err not_found | some v ↦ ok v ]

-- How a write of the secret store ends; one that fails may still have been made.
pub data WriteSecret : Type 0 where
  written : WriteSecret
  broken : Bool → Option ContextErr → WriteSecret

abbrev pub set_secret : WriteSecret → Bytes → Bytes → World → World × Option (Option ContextErr)
set_secret written k v w = (record w { secrets = assign k v w.secrets }, none)
set_secret (broken true cause) k v w = (record w { secrets = assign k v w.secrets }, some cause)
set_secret (broken false cause) k v w = (w, some cause)

-- Delete; the stores return nil where the secret is not there.
abbrev pub delete_secret : WriteSecret → Bytes → World → World × Option (Option ContextErr)
delete_secret written k w = (record w { secrets = erase k w.secrets }, none)
delete_secret (broken true cause) k w = (record w { secrets = erase k w.secrets }, some cause)
delete_secret (broken false cause) k w = (w, some cause)
