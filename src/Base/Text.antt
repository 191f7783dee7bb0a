-- ===== src/Base/Text.antt =====
-- C strings: the bytes before the terminator. `strstr` and `strchr` give an offset, `none` for NULL.
use Prim.Native.Nat.{ℕ, suc}
use Prim.Native.Char.{code}
use Prim.Native.String.{String}
use mathlib.Core.Bool.{Bool, true, false, ◌&&◌}
use mathlib.Core.Option.{Option, none, some}
use mathlib.Core.List.{List, [], ◌∷◌}
use libaergo.Base.Tests.{◌==◌, if◌then◌else◌}

-- The bytes of an ASCII literal.
abbrev pub codes : String → List ℕ
codes String.[] = []
codes (String.◌∷◌ c s) = code c ∷ codes s

unfoldable pub starts_with : List ℕ → List ℕ → Bool
starts_with [] s = true
starts_with (p ∷ ps) [] = false
starts_with (p ∷ ps) (c ∷ s) = p == c && starts_with ps s

unfoldable pub strstr : List ℕ → List ℕ → Option ℕ
unfolding starts_with
strstr [] needle = if starts_with needle [] then some 0 else none
strstr (c ∷ s) needle =
    if starts_with needle (c ∷ s)
    then some 0
    else elim (strstr s needle) [ none ↦ none | some i ↦ some (suc i) ]

-- The C string at the start of some memory.
unfoldable pub c_string : List ℕ → List ℕ
c_string [] = []
c_string (c ∷ s) = if c == 0 then [] else c ∷ c_string s

unfoldable pub strchr : List ℕ → ℕ → Option ℕ
strchr [] c = none
strchr (d ∷ s) c =
    if d == c then some 0 else elim (strchr s c) [ none ↦ none | some i ↦ some (suc i) ]

-- The last place.
unfoldable pub strrchr : List ℕ → ℕ → Option ℕ
strrchr [] c = none
strrchr (d ∷ s) c = elim (strrchr s c) [
  | none ↦ if d == c then some 0 else none
  | some i ↦ some (suc i)
]

-- strncmp(s, t, length t) == 0
abbrev pub has_prefix : List ℕ → List ℕ → Bool
has_prefix s t = starts_with t s
