-- ===== src/Signals/Jump.antt =====
-- signal/sigjump.c: a handler that jumps back into main, with the mask as it was saved there. SIGINT is
-- blocked while its handler runs.
use unix_demos.Base.{
  ℕ, zero, suc, ◌≡◌, sym, ap, ◌∙◌, Bool, true, false, not, List, [], ◌∷◌, ◌++◌, if◌then◌else◌,
  append_assoc, append-nil,
}

-- What is printed, with whether SIGINT is in the mask that is printed.
pub data Line : Type 0 where
  initial : (blocked : Bool) → Line
  received : (blocked : Bool) → Line
  not_set : Line
  after_jump : (blocked : Bool) → Line

-- `canJump`, the mask, the one that `env` holds, and what was printed.
pub record Jumping : Type 0 where
  pub can_jump : Bool
  pub blocked : Bool
  pub env : Bool
  pub printed : List Line

abbrev pub print_line : Line → Jumping → Jumping
print_line line s = record s { printed = s.printed ++ line ∷ [] }

-- `main` behind a jump.
unfoldable pub jumped : Jumping → Jumping
jumped s = print_line (after_jump s.blocked) s

-- The handler and what follows it: a return gives the mask back that was there before, and a jump the one
-- that was saved.
unfoldable pub sig_handler : (before : Bool) → Jumping → Jumping
unfolding jumped
sig_handler before s =
    let s' = print_line (received s.blocked) s in
    if not s'.can_jump
    then (let t = print_line not_set s' in record t { blocked = before })
    else jumped (record s' { blocked = s'.env })

-- A SIGINT that is sent: it is caught unless it is blocked.
unfoldable pub sigint_sent : Jumping → Jumping
unfolding sig_handler
sigint_sent s = if s.blocked then s else sig_handler s.blocked (record s { blocked = true })

abbrev pub sigints : ℕ → Jumping → Jumping
sigints zero s = s
sigints (suc n) s = sigints n (sigint_sent s)

-- `sigsetjmp(env, 1)`, which answers 0, and `canJump = 1`.
unfoldable pub set_jump : Jumping → Jumping
set_jump s = record s { env = s.blocked; can_jump = true }

-- `main`, while SIGINT comes this often before the jump can be made, and this often afterwards.
unfoldable pub main : (early late : ℕ) → Jumping
unfolding sigint_sent set_jump
main early late = sigints late (
    set_jump (
      sigints early
        (record { can_jump = false; blocked = false; env = false; printed = initial false ∷ [] })))

abbrev pub repeat : ℕ → List Line → List Line
repeat zero lines = []
repeat (suc n) lines = lines ++ repeat n lines

-- The program between two signals: SIGINT is not blocked.
abbrev pub resting : (can_jump : Bool) → List Line → Jumping
resting can_jump printed = record {
  can_jump = can_jump;
  blocked = false;
  env = false;
  printed = printed;
}

repeat-step :
    (printed : List Line) (a b : Line) (rest : List Line)
    → ((printed ++ a ∷ []) ++ b ∷ []) ++ rest ≡ printed ++ a ∷ b ∷ rest
repeat-step printed a b rest =
    append_assoc (printed ++ a ∷ []) (b ∷ []) rest ∙ append_assoc printed (a ∷ []) (b ∷ rest)

sigints-early :
    (n : ℕ) (printed : List Line)
    → sigints n (resting false printed)
      ≡ resting false (printed ++ repeat n (received true ∷ not_set ∷ []))
unfolding sigint_sent sig_handler
sigints-early zero printed = ap (resting false) (sym (append-nil printed))
sigints-early (suc n) printed =
    sigints-early n ((printed ++ received true ∷ []) ++ not_set ∷ [])
    ∙ ap (resting false)
        (repeat-step printed (received true) not_set (repeat n (received true ∷ not_set ∷ [])))

sigints-late :
    (n : ℕ) (printed : List Line)
    → sigints n (resting true printed)
      ≡ resting true (printed ++ repeat n (received true ∷ after_jump false ∷ []))
unfolding sigint_sent sig_handler jumped
sigints-late zero printed = ap (resting true) (sym (append-nil printed))
sigints-late (suc n) printed =
    sigints-late n ((printed ++ received true ∷ []) ++ after_jump false ∷ [])
    ∙ ap (resting true) (
        repeat-step printed (received true) (after_jump false)
          (repeat n (received true ∷ after_jump false ∷ [])))

-- Every SIGINT is caught, with SIGINT in the mask while the handler runs; the ones that come before the
-- jump can be made end in a simple return, the later ones in a jump, behind which the mask is without
-- SIGINT again, so that the next one can come.
pub main-printed :
    (early late : ℕ)
    → main early late
      ≡ resting true (
          (initial false ∷ repeat early (received true ∷ not_set ∷ []))
          ++ repeat late (received true ∷ after_jump false ∷ []))
unfolding main set_jump
main-printed early late =
    ap (λ s. sigints late (set_jump s)) (sigints-early early (initial false ∷ []))
    ∙ sigints-late late (initial false ∷ repeat early (received true ∷ not_set ∷ []))
