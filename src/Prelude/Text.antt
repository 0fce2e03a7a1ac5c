-- ===== src/Prelude/Text.antt =====
-- Go's `strings` functions that the program uses, over the characters of a text.
use Prim.Native.Nat.{ℕ, ◌+◌}
use Prim.Native.Char.{Char, code}
use Prim.Native.String.{String, ◌++◌}
use mathlib.Core.Path.{◌≡◌, refl}
use mathlib.Core.Bool.{Bool, true, false, ◌&&◌, ◌||◌}
use mathlib.Core.List.{List, [], ◌∷◌}
use text.Mathlib.Text.{◌==◌}
use servicer.Prelude.Tests.{leb, eqb, if◌then◌else◌}

-- `unicode.IsSpace`.
pub is_space : ℕ → Bool
is_space c =
    (leb 9 c && leb c 13)
    || eqb c 32
    || eqb c 0x85
    || eqb c 0xa0
    || eqb c 0x1680
    || (leb 0x2000 c && leb c 0x200a)
    || eqb c 0x2028
    || eqb c 0x2029
    || eqb c 0x202f
    || eqb c 0x205f
    || eqb c 0x3000

trim_left : String → String
trim_left String.[] = ""
trim_left (String.◌∷◌ c s) = if is_space (code c) then trim_left s else String.◌∷◌ c s

-- A space that only spaces follow goes.
snoc_trimmed : Char → String → String
snoc_trimmed c String.[] = if is_space (code c) then "" else String.◌∷◌ c ""
snoc_trimmed c (String.◌∷◌ d s) = String.◌∷◌ c (String.◌∷◌ d s)

trim_right : String → String
trim_right String.[] = ""
trim_right (String.◌∷◌ c s) = snoc_trimmed c (trim_right s)

-- `strings.TrimSpace`.
unfoldable pub trim_space : String → String
unfolding trim_left trim_right snoc_trimmed is_space
trim_space s = trim_right (trim_left s)

-- `strings.TrimSpace(s) == ""`.
abbrev pub is_blank : String → Bool
is_blank s = trim_space s == ""

-- `c` goes to the first field.
push_head : Char → List String → List String
push_head c [] = String.◌∷◌ c "" ∷ []
push_head c (field ∷ fields) = String.◌∷◌ c field ∷ fields

-- `strings.Split(s, sep)` for a separator of one character.
unfoldable pub split : String → ℕ → List String
unfolding push_head
split String.[] sep = "" ∷ []
split (String.◌∷◌ c s) sep =
    let rest = split s sep in if eqb (code c) sep then "" ∷ rest else push_head c rest

-- `strings.HasPrefix(s, prefix)` for a prefix of one character.
unfoldable pub has_prefix : ℕ → String → Bool
has_prefix c String.[] = false
has_prefix c (String.◌∷◌ d s) = eqb (code d) c

-- Simple case folding of the characters that fold to an ASCII letter: the capitals, the Kelvin sign
-- and the long s.
fold_code : ℕ → ℕ
fold_code c =
    if leb b'A' c && leb c b'Z'
    then c + 32
    else if eqb c 0x212a
    then b'k'
    else if eqb c 0x17f
    then b's'
    else c

-- `strings.EqualFold` where one of the texts is ASCII.
unfoldable pub equal_fold : String → String → Bool
unfolding fold_code
equal_fold String.[] String.[] = true
equal_fold String.[] (String.◌∷◌ d t) = false
equal_fold (String.◌∷◌ c s) String.[] = false
equal_fold (String.◌∷◌ c s) (String.◌∷◌ d t) =
    eqb (fold_code (code c)) (fold_code (code d)) && equal_fold s t

-- `unicode.ToLower`, of the characters whose lower case is in ASCII.
lower_code : ℕ → ℕ
lower_code c =
    if leb b'A' c && leb c b'Z'
    then c + 32
    else if eqb c 0x212a
    then b'k'
    else if eqb c 0x130
    then b'i'
    else c

-- `strings.ToLower(s) == t`, where `t` is ASCII.
unfoldable pub lower_is : String → String → Bool
unfolding lower_code
lower_is String.[] String.[] = true
lower_is String.[] (String.◌∷◌ d t) = false
lower_is (String.◌∷◌ c s) String.[] = false
lower_is (String.◌∷◌ c s) (String.◌∷◌ d t) = eqb (lower_code (code c)) (code d) && lower_is s t

abbrev pub concat : String → String → String
concat s t = s ++ t

text_tests :
    (trim_space " a b\t" ≡ "a b")
    × (trim_space " \n" ≡ "")
    × (equal_fold "serviceINSTANCE" "ServiceInstance" ≡ true)
    × (split "a,,b" b',' ≡ "a" ∷ "" ∷ "b" ∷ [])
unfolding trim_space split equal_fold
text_tests = (refl, refl, refl, refl)
