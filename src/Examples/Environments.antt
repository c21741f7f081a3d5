-- ===== src/Examples/Environments.antt =====
-- pthread/getenv_thr.c at a concrete environment.
use unix_demos.Base.{◌≡◌, refl, List, [], ◌∷◌, map}
use unix_demos.Os.{Bytes}
use unix_demos.Environ.{find_value}
use unix_demos.Environ.Lookup.{entry, lookup, find_value-lookup}

-- HOMES=x, HOME=/=
abbrev vars : List (Bytes × Bytes)
vars =
    ((b'H' ∷ b'O' ∷ b'M' ∷ b'E' ∷ b'S' ∷ []), (b'x' ∷ []))
    ∷ ((b'H' ∷ b'O' ∷ b'M' ∷ b'E' ∷ []), (b'/' ∷ b'=' ∷ []))
    ∷ []

abbrev home : Bytes
home = b'H' ∷ b'O' ∷ b'M' ∷ b'E' ∷ []

find_value-lookup_example : find_value home (map entry vars) ≡ lookup home vars
find_value-lookup_example = find_value-lookup home vars refl (refl, (refl, tt))
