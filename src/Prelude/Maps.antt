-- ===== src/Prelude/Maps.antt =====
-- A Go map with text keys as its assignments, the newest first: a read finds the last value that a
-- key was given.
use Prim.Native.String.{String}
use mathlib.Core.Option.{Option, none, some}
use mathlib.Core.List.{List, [], ◌∷◌}
use text.Mathlib.Text.{◌==◌}
use servicer.Prelude.Tests.{if◌then◌else◌}

-- `value, ok := assignments[key]`.
unfoldable pub lookup {ℓ} : {V : Type ℓ} → String → List (String × V) → Option V
lookup key [] = none
lookup key (assignment ∷ earlier) =
    if assignment.0 == key then some assignment.1 else lookup key earlier
