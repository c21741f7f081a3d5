-- ===== src/Os/Text.antt =====
-- Arrays of characters, and the text in them up to a NUL.
use unix_demos.Base.{
  ℕ, zero, suc, ◌≡◌, refl, ap, Bool, true, false, [], ◌∷◌, ◌==◌, if◌then◌else◌, length,
}
use unix_demos.Os.{Bytes}

-- `memset(buf, 0, n)`
unfoldable pub zeros : ℕ → Bytes
zeros zero = []
zeros (suc n) = 0 ∷ zeros n

abbrev pub no_nul : Bytes → Bool
no_nul [] = true
no_nul (c ∷ cs) = if c == 0 then false else no_nul cs

-- The text in front of the first NUL.
unfoldable pub text : Bytes → Bytes
text [] = []
text (c ∷ cs) = if c == 0 then [] else c ∷ text cs

pub length-zeros : (n : ℕ) → length (zeros n) ≡ n
unfolding zeros
length-zeros zero = refl
length-zeros (suc n) = ap suc (length-zeros n)
