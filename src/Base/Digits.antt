-- ===== src/Base/Digits.antt =====
-- Numbers as `printf` writes them.
use Prim.Native.Nat.{ℕ, zero, suc, ◌+◌, ◌/◌, ◌%◌}
use Prim.Native.Char.{code}
use Prim.Native.String.{String}
use mathlib.Core.List.{List, [], ◌∷◌}
use unix_demos.Base.Tests.{ltb, if◌then◌else◌}

-- The decimal digits of a number, as `%ld` prints them, before `acc`. The number plus one is fuel
-- enough.
unfoldable pub digits_of : ℕ → ℕ → List ℕ → List ℕ
digits_of zero n acc = acc
digits_of (suc fuel) n acc =
    let acc' = (b'0' + n % 10) ∷ acc in
    let rest = digits_of fuel (n / 10) acc' in if ltb n 10 then acc' else rest

-- The characters of a text.
abbrev pub codes : String → List ℕ
codes String.[] = []
codes (String.◌∷◌ c s) = code c ∷ codes s

-- `%d`
abbrev pub num : ℕ → List ℕ
num n = digits_of (n + 1) n []
