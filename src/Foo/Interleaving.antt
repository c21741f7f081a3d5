-- ===== src/Foo/Interleaving.antt =====
-- Interleavings of two sequences of calls.
use unix_demos.Base.{List, [], ◌∷◌}

pub data Interleaving {ℓ} {A : Type ℓ} : List A → List A → List A → Type ℓ where
  stop : Interleaving [] [] []
  left : {a : A} {xs ys zs : List A} → Interleaving xs ys zs → Interleaving (a ∷ xs) ys (a ∷ zs)
  right : {a : A} {xs ys zs : List A} → Interleaving xs ys zs → Interleaving xs (a ∷ ys) (a ∷ zs)
