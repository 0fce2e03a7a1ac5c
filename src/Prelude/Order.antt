-- ===== src/Prelude/Order.antt =====
-- The order of texts in Go, which compares bytes: in UTF-8 it is that of the characters' codes.
use Prim.Native.Char.{code}
use Prim.Native.String.{String}
use mathlib.Core.Path.{◌≡◌, refl}
use mathlib.Core.Bool.{Bool, true, false}
use native.Mathlib.Omega.{arith}
use text.Mathlib.TextEquality.{Char-path}
use servicer.Prelude.Tests.{ltb, if◌then◌else◌}

-- `s < t`.
unfoldable pub less : String → String → Bool
less String.[] String.[] = false
less String.[] (String.◌∷◌ d t) = true
less (String.◌∷◌ c s) String.[] = false
less (String.◌∷◌ c s) (String.◌∷◌ d t) =
    let rest = less s t in
    if ltb (code c) (code d) then true else if ltb (code d) (code c) then false else rest

pub less_irrefl : (s : String) → less s s ≡ false
unfolding less
less_irrefl String.[] = refl
less_irrefl (String.◌∷◌ c s) = ground (arith, less_irrefl s)

pub less_trans : (s t u : String) → less s t ≡ true → less t u ≡ true → less s u ≡ true
unfolding less
less_trans String.[] String.[] u h k = cc
less_trans String.[] (String.◌∷◌ d t) String.[] h k = cc
less_trans String.[] (String.◌∷◌ d t) (String.◌∷◌ e u) h k = refl
less_trans (String.◌∷◌ c s) String.[] u h k = cc
less_trans (String.◌∷◌ c s) (String.◌∷◌ d t) String.[] h k = cc
less_trans (String.◌∷◌ c s) (String.◌∷◌ d t) (String.◌∷◌ e u) h k = ground (arith, less_trans s t u)

pub less_total : (s t : String) → less s t ≡ false → less t s ≡ false → s ≡ t
unfolding less
less_total String.[] String.[] h k = refl
less_total String.[] (String.◌∷◌ d t) h k = cc
less_total (String.◌∷◌ c s) String.[] h k = cc
less_total (String.◌∷◌ c s) (String.◌∷◌ d t) h k =
    let e = less_total s t (ground arith) (ground arith) in
    let f = Char-path c d (ground arith) in λ i. String.◌∷◌ (f i) (e i)
