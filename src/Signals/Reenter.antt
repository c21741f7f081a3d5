-- ===== src/Signals/Reenter.antt =====
-- signal/sig_reenter.c: a handler that calls getpwnam while main compares the entry that getpwnam has given
-- it, which stands in one static buffer. getpwnam is called here as a whole.
use unix_demos.Base.{
  ◌≡◌, refl, sym, ap, append-nil, append_assoc, ◌∙◌, Bool, true, false, not, Option, none, some,
  List, [], ◌∷◌, ◌++◌, if◌then◌else◌, same_text, codes, arith,
}
use unix_demos.Os.{Bytes}

-- The name in the buffer, and the lines that are printed.
pub record Entries : Type 0 where
  pub pw_name : Bytes
  pub printed : List Bytes

abbrev pub print_text : Bytes → Entries → Entries
print_text text u = record u { printed = u.printed ++ text ∷ [] }

module _ (getpwnam : (name : Bytes) → Option Bytes) where
  -- The handler: none where it exits.
  unfoldable pub sig_alarm : Entries → Option Entries
  sig_alarm u = elim (getpwnam (codes "root")) [
    | none ↦ none
    | some name ↦ some (
        print_text (codes "root name: " ++ (name ++ codes "\n"))
          (record (print_text (codes "In signal handler\n") u) { pw_name = name }))
  ]

  abbrev pub alarm_between : (fired : Bool) → Entries → Option Entries
  alarm_between false u = some u
  alarm_between true u = sig_alarm u

  abbrev pub corrupted_line : Entries → Bytes
  corrupted_line u = codes "return value corrupted!, pw_name = " ++ (u.pw_name ++ codes "\n")

  -- From the comparison on.
  unfoldable pub compare_name : Entries → Entries
  compare_name u =
      if not (same_text u.pw_name (codes "Zach")) then print_text (corrupted_line u) u else u

  abbrev pub compared : Option Entries → Option Entries
  compared none = none
  compared (some u) = some (compare_name u)

  -- A round of the loop, where the alarm may come between the call and the comparison.
  unfoldable pub round : (fired : Bool) → Entries → Option Entries
  unfolding sig_alarm compare_name
  round fired u = elim (getpwnam (codes "Zach")) [
    | none ↦ none
    | some name ↦ compared (alarm_between fired (record u { pw_name = name }))
  ]

  unfoldable pub loop : List Bool → Entries → Option Entries
  unfolding round
  loop [] u = some u
  loop (fired ∷ rest) u = elim (round fired u) [ none ↦ none | some u' ↦ loop rest u' ]

  -- What a round prints, with this name for root.
  abbrev pub round_lines : (root : Bytes) → (fired : Bool) → List Bytes
  round_lines root false = []
  round_lines root true =
      codes "In signal handler\n"
      ∷ (codes "root name: " ++ (root ++ codes "\n"))
      ∷ (codes "return value corrupted!, pw_name = " ++ (root ++ codes "\n"))
      ∷ []

  abbrev pub all_lines : (root : Bytes) → List Bool → List Bytes
  all_lines root [] = []
  all_lines root (fired ∷ rest) = round_lines root fired ++ all_lines root rest

  module _ (root : Bytes) (found : getpwnam (codes "Zach") ≡ some (codes "Zach"))
      (found' : getpwnam (codes "root") ≡ some root)
      (other : same_text root (codes "Zach") ≡ false) where
    round-lines :
        (fired : Bool) (u : Entries)
        → (v : Entries) × (round fired u ≡ some v)
          × (v.printed ≡ u.printed ++ round_lines root fired)
    unfolding round sig_alarm compare_name
    round-lines false u =
        (record u { pw_name = codes "Zach" }, ground (arith, found), sym (append-nil u.printed))
    round-lines true u =
        let handler = codes "In signal handler\n" in
        let name = codes "root name: " ++ (root ++ codes "\n") in
        let corrupted = codes "return value corrupted!, pw_name = " ++ (root ++ codes "\n") in
        let u' : Entries = record {
          pw_name = root;
          printed = ((u.printed ++ handler ∷ []) ++ name ∷ []) ++ corrupted ∷ [];
        } in
        (
          u',
          ground (arith, found, found', other),
          append_assoc (u.printed ++ handler ∷ []) (name ∷ []) (corrupted ∷ [])
              ∙ append_assoc u.printed (handler ∷ []) (name ∷ corrupted ∷ []),
        )

    -- If the database has both users, with names that differ, then a line for a corrupted value is printed
    -- in exactly the rounds in which the alarm comes between the call and the comparison, behind the two
    -- lines of the handler.
    pub loop-lines :
        (fired : List Bool) (u : Entries)
        → (v : Entries) × (loop fired u ≡ some v) × (v.printed ≡ u.printed ++ all_lines root fired)
    unfolding loop
    loop-lines [] u = (u, refl, sym (append-nil u.printed))
    loop-lines (b ∷ fired) u =
        let (v, e, p) = round-lines b u in
        let (w, e', p') = loop-lines fired v in
        (
          w,
          ground (arith, e, e'),
          p'
              ∙ (ap (λ xs. xs ++ all_lines root fired) p
                  ∙ append_assoc u.printed (round_lines root b) (all_lines root fired)),
        )
