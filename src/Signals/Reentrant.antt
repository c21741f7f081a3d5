-- ===== src/Signals/Reentrant.antt =====
-- signal/reentrant.c and signal/sig_reenter.c: a handler that calls the function that the program itself
-- is using, whose result stands in one static buffer. `crypt` and `getpwnam` are called here as a
-- whole: what a signal inside of them does is not said.
use unix_demos.Base.{
  num, ℕ, zero, suc, ◌+◌, ◌≡◌, refl, true, false, not, List, [], ◌∷◌, ◌++◌, if◌then◌else◌,
  same_text, length, length-append, ap, ◌∙◌, codes, arith, inl, inr, Bool-cases,
}
use unix_demos.Os.{Bytes}

-- How often the handler runs in a round of the loop: in front of the call, and between the call and the
-- comparison.
pub record Round : Type 0 where
  pub before : ℕ
  pub between : ℕ

-- The buffer of `crypt`, `call_num`, `mismatched` and `handled`, and the lines that are printed.
pub record Crypts : Type 0 where
  pub buffer : Bytes
  pub call_num : ℕ
  pub mismatched : ℕ
  pub handled : ℕ
  pub printed : List Bytes

module _ (crypt : (key salt : Bytes) → Bytes) (str1 str2 : Bytes) where
  unfoldable pub sig_handler : Crypts → Crypts
  sig_handler u = record u { buffer = crypt str2 (codes "xx"); handled = u.handled + 1 }

  abbrev pub handlers : ℕ → Crypts → Crypts
  handlers zero u = u
  handlers (suc n) u = handlers n (sig_handler u)

  -- `"Mismatch on call: %d (mismatch=%d handled=%d)\n"`
  abbrev pub mismatch_line : Crypts → Bytes
  mismatch_line u =
      codes "Mismatch on call: "
      ++ (num u.call_num
          ++ (codes " (mismatch="
              ++ (num u.mismatched ++ (codes " handled=" ++ (num u.handled ++ codes ")\n")))))

  -- `if(strcmp(crypt(argv[1], "xx"), cr1) != 0) …`, from the comparison on.
  unfoldable pub compare_crypt : (cr1 : Bytes) → Crypts → Crypts
  compare_crypt cr1 u =
      if not (same_text u.buffer cr1)
      then (let u' = record u { mismatched = u.mismatched + 1 } in
          record u' { printed = u'.printed ++ mismatch_line u' ∷ [] })
      else u

  -- A round of the loop.
  unfoldable pub round : Round → Crypts → Crypts
  unfolding sig_handler compare_crypt
  round r u =
      let u1 = handlers r.before u in
      let u2 = handlers r.between (record u1 { buffer = crypt str1 (codes "xx") }) in
      let u3 = compare_crypt (crypt str1 (codes "xx")) u2 in
      record u3 { call_num = u3.call_num + 1 }

  unfoldable pub compare_loop : List Round → Crypts → Crypts
  unfolding round
  compare_loop [] u = u
  compare_loop (r ∷ rs) u = compare_loop rs (round r u)

  -- What stands before the loop.
  abbrev pub at_start : Crypts
  at_start = record {
    buffer = crypt str1 (codes "xx");
    call_num = 1;
    mismatched = 0;
    handled = 0;
    printed = [];
  }

  -- One for a round in which the handler comes in between.
  abbrev pub one_if : ℕ → ℕ
  one_if zero = 0
  one_if (suc n) = 1

  -- The rounds in which the handler comes between the call and the comparison.
  abbrev pub overwritten : List Round → ℕ
  overwritten [] = 0
  overwritten (r ∷ rs) = overwritten rs + one_if r.between

  abbrev pub all_handlers : List Round → ℕ
  all_handlers [] = 0
  all_handlers (r ∷ rs) = all_handlers rs + (r.before + r.between)

  same_text_refl : (t : Bytes) → same_text t t ≡ true
  same_text_refl [] = refl
  same_text_refl (c ∷ cs) = ground (arith, same_text_refl cs)

  handlers-kept :
      (n : ℕ) (u : Crypts)
      → let u' = handlers n u in
        (u'.mismatched ≡ u.mismatched)
        × (u'.handled ≡ u.handled + n)
        × (u'.buffer ≡ (elim n [ zero ↦ u.buffer | suc m ↦ crypt str2 (codes "xx") ]))
        × (length u'.printed ≡ length u.printed)
  unfolding sig_handler
  handlers-kept zero u = (refl, ground arith, refl, refl)
  handlers-kept (suc zero) u = (refl, ground arith, refl, refl)
  handlers-kept (suc (suc n)) u =
      let (a, b, c, d) = handlers-kept (suc n) (sig_handler u) in
      (ground (arith, a), ground (arith, b), ground (arith, c), ground (arith, d))

  compare_crypt-mismatched :
      (cr1 : Bytes) (u : Crypts)
      → let u' = compare_crypt cr1 u in
        (u'.mismatched ≡ u.mismatched + (if same_text u.buffer cr1 then 0 else 1))
        × (u'.handled ≡ u.handled)
        × (length u'.printed ≡ length u.printed + (if same_text u.buffer cr1 then 0 else 1))
  unfolding compare_crypt
  compare_crypt-mismatched cr1 u = elim (Bool-cases (same_text u.buffer cr1)) [
    | inl e ↦ (ground (arith, e), ground (arith, e), ground (arith, e))
    | inr e ↦ (
      ground (arith, e),
      ground (arith, e),
      ground (
        arith,
        e,
        length-append u.printed (mismatch_line (record u { mismatched = u.mismatched + 1 }) ∷ []),
      ),
    )
  ]

  -- One for a text that is not the first one's.
  abbrev miss : Bytes → ℕ
  miss buf = if same_text buf (crypt str1 (codes "xx")) then 0 else 1

  module _ (other : same_text (crypt str2 (codes "xx")) (crypt str1 (codes "xx")) ≡ false) where
    counts :
        (n : ℕ) {buf : Bytes}
        → buf ≡ (elim n [ zero ↦ crypt str1 (codes "xx") | suc m ↦ crypt str2 (codes "xx") ])
        → miss buf ≡ one_if n
    counts zero e =
        ap miss e ∙ ap (λ b. if b then 0 else 1) (same_text_refl (crypt str1 (codes "xx")))
    counts (suc n) e = ap miss e ∙ ap (λ b. if b then 0 else 1) other

    round-mismatched :
        (r : Round) (u : Crypts)
        → ((round r u).mismatched ≡ u.mismatched + one_if r.between)
          × (length (round r u).printed ≡ length u.printed + one_if r.between)
          × ((round r u).handled ≡ u.handled + (r.before + r.between))
    unfolding round
    round-mismatched r u =
        let cr1 = crypt str1 (codes "xx") in
        let u1 = record (handlers r.before u) { buffer = cr1 } in
        let (a, b, c, k) = handlers-kept r.before u in
        let (d, e, f, l) = handlers-kept r.between u1 in
        let (g, h, i) = compare_crypt-mismatched cr1 (handlers r.between u1) in
        (
          omega (arith, g, d, a, counts r.between f),
          omega (arith, i, l, k, counts r.between f),
          ground (arith, h, e, b),
        )

    compare_loop-counts :
        (rs : List Round) (u : Crypts)
        → ((compare_loop rs u).mismatched ≡ u.mismatched + overwritten rs)
          × (length (compare_loop rs u).printed ≡ length u.printed + overwritten rs)
          × ((compare_loop rs u).handled ≡ u.handled + all_handlers rs)
    unfolding compare_loop
    compare_loop-counts [] u = (omega arith, omega arith, omega arith)
    compare_loop-counts (r ∷ rs) u =
        let (a, b, c) = round-mismatched r u in
        let (d, e, f) = compare_loop-counts rs (round r u) in
        (omega (arith, d, a), omega (arith, e, b), omega (arith, f, c))

    -- With two texts that are encrypted differently, the mismatches that reentrant.c counts are
    -- as many as the rounds in which the handler comes between the call of crypt and the
    -- comparison, a line is printed for each, and no run of the handler is lost.
    pub compare_loop-mismatched :
        (rs : List Round)
        → ((compare_loop rs at_start).mismatched ≡ overwritten rs)
          × (length (compare_loop rs at_start).printed ≡ overwritten rs)
          × ((compare_loop rs at_start).handled ≡ all_handlers rs)
    compare_loop-mismatched rs =
        let (a, b, c) = compare_loop-counts rs at_start in
        (omega (arith, a), omega (arith, b), omega (arith, c))
