-- ===== src/Epoll/Buffer.antt =====
-- The fixed array of characters that a read fills and a write empties.
use unix_demos.Base.{
  ℕ, zero, suc, ◌≤◌, ◌<◌, ◌≡◌, refl, ap, true, Option, none, some, [], ◌∷◌, ◌++◌, arith, ◌==◌,
  if◌then◌else◌, length,
}
use unix_demos.Os.{Bytes}
use unix_demos.Os.Text.{zeros, no_nul}

-- What a read of `bs` leaves in the array: the bytes behind them are those of before.
unfoldable pub filled : Bytes → Bytes → Bytes
filled [] buf = buf
filled (b ∷ bs) [] = []
filled (b ∷ bs) (c ∷ buf) = b ∷ filled bs buf

-- The text in the array, up to its NUL; without one, `strlen` runs past the end.
unfoldable pub c_str : Bytes → Option Bytes
c_str [] = none
c_str (c ∷ cs) = if c == 0 then some [] else elim (c_str cs) [ none ↦ none | some t ↦ some (c ∷ t) ]

pub length-filled : (bs buf : Bytes) → length (filled bs buf) ≡ length buf
unfolding filled
length-filled [] buf = refl
length-filled (b ∷ bs) [] = refl
length-filled (b ∷ bs) (c ∷ buf) = ap suc (length-filled bs buf)

-- A text shorter than a cleared array is read back whole.
pub c_str-filled-zeros :
    (bs : Bytes) (n : ℕ) → no_nul bs ≡ true → length bs < n → c_str (filled bs (zeros n)) ≡ some bs
unfolding filled zeros c_str
c_str-filled-zeros bs zero clean short = absurd (omega arith)
c_str-filled-zeros [] (suc n) clean short = refl
c_str-filled-zeros (b ∷ bs) (suc n) clean short = ground (arith, c_str-filled-zeros bs n)

-- A text without NUL that fills the array leaves none to stop at.
pub c_str-filled_all :
    (bs buf : Bytes) → no_nul bs ≡ true → length bs ≡ length buf → c_str (filled bs buf) ≡ none
unfolding filled c_str
c_str-filled_all [] [] clean e = refl
c_str-filled_all [] (c ∷ buf) clean e = absurd (omega arith)
c_str-filled_all (b ∷ bs) [] clean e = absurd (omega arith)
c_str-filled_all (b ∷ bs) (c ∷ buf) clean e = ground (arith, c_str-filled_all bs buf)

-- A second text at least as long as the first takes its whole place.
pub filled_twice :
    (xs bs buf : Bytes) → length xs ≤ length bs → filled bs (filled xs buf) ≡ filled bs buf
unfolding filled
filled_twice [] bs buf h = refl
filled_twice (x ∷ xs) [] buf h = absurd (omega arith)
filled_twice (x ∷ xs) (b ∷ bs) [] h = refl
filled_twice (x ∷ xs) (b ∷ bs) (c ∷ buf) h = ap (λ t. b ∷ t) (filled_twice xs bs buf (omega arith))

-- Old text behind a new one is read with it.
pub c_str-filled_over :
    (bs old rest : Bytes) (xs : Bytes)
    → no_nul bs ≡ true
    → no_nul old ≡ true
    → length xs ≡ length bs
    → c_str (filled bs (xs ++ (old ++ 0 ∷ rest))) ≡ some (bs ++ old)
unfolding filled c_str
c_str-filled_over [] [] rest [] clean clean' e = refl
c_str-filled_over [] (o ∷ old) rest [] clean clean' e =
    ground (arith, c_str-filled_over [] old rest [])
c_str-filled_over [] old rest (x ∷ xs) clean clean' e = absurd (omega arith)
c_str-filled_over (b ∷ bs) old rest [] clean clean' e = absurd (omega arith)
c_str-filled_over (b ∷ bs) old rest (x ∷ xs) clean clean' e =
    ground (arith, c_str-filled_over bs old rest xs)
