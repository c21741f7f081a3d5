-- ===== src/Ipc/Mmap.antt =====
-- IPC/mmap_demo.c: a file is copied in pieces that are mapped into memory.
use Prim.Native.String.{String}
use unix_demos.Base.{
  ℕ, zero, suc, ◌+◌, ◌-◌, ◌*◌, ◌^◌, ◌<◌, ◌≤◌, ◌≡◌, refl, true, false, some, List, [], ◌∷◌, ltb,
  if◌then◌else◌, length, arith,
}
use unix_demos.Os.{
  open_file, fstat_size, ftruncate, mmap, memcpy, munmap, Prog, exit, ◌>>=◌, ◌>>◌, sys, skip,
  or_exit,
}
use unix_demos.Os.Run.{Kernel, returned, run, Reply, Answers, Makes, Makes-invoke, Makes-ret}

abbrev pub copyincr : ℕ
copyincr = 2 ^ 30

-- The size of the next piece.
unfoldable pub piece_size : (size fsz : ℕ) → ℕ
piece_size size fsz = if ltb copyincr (size - fsz) then copyincr else size - fsz

unfoldable pub copy_piece : (fdin fdout fsz copysz : ℕ) → Prog (Unit {0})
copy_piece fdin fdout fsz copysz = do
  mapped ← sys (mmap copysz fdin fsz)
  src ← or_exit 255 mapped
  mapped' ← sys (mmap copysz fdout fsz)
  dst ← or_exit 255 mapped'
  sys (memcpy dst src copysz)
  sys (munmap src copysz)
  sys (munmap dst copysz)

-- The loop, at most `n` pieces long, from the offset `fsz` on.
unfoldable pub copy_pieces : (n fdin fdout size fsz : ℕ) → Prog (Unit {0})
unfolding piece_size copy_piece
copy_pieces zero fdin fdout size fsz = skip
copy_pieces (suc n) fdin fdout size fsz =
    let copysz = piece_size size fsz in
    let rest = copy_pieces n fdin fdout size (fsz + copysz) in
    if ltb fsz size then copy_piece fdin fdout fsz copysz >> rest else skip

unfoldable pub main : ℕ → List String → Prog (Unit {0})
unfolding copy_pieces
main n (from ∷ to ∷ []) = do
  opened ← sys (open_file from)
  fdin ← or_exit 255 opened
  opened' ← sys (open_file to)
  fdout ← or_exit 255 opened'
  stat ← sys (fstat_size fdin)
  size ← or_exit 255 stat
  cut ← sys (ftruncate fdout size)
  or_exit 255 cut
  copy_pieces n fdin fdout size 0
main n _ = exit 127

module _ (fdin fdout : ℕ) where
  -- A piece of the input is copied to the same place of the output, by way of two addresses.
  abbrev pub piece : (off len : ℕ) → ℕ × ℕ → List Reply → List Reply
  piece off len (src, dst) rest =
      (mmap len fdin off, some src)
      ∷ (mmap len fdout off, some dst)
      ∷ (memcpy dst src len, tt)
      ∷ (munmap src len, tt)
      ∷ (munmap dst len, tt)
      ∷ rest

  -- Full pieces, one behind the other, and the last one of `len` bytes.
  abbrev pub pieces : (off : ℕ) → List (ℕ × ℕ) → (len : ℕ) → ℕ × ℕ → List Reply
  pieces off [] len last = piece off len last []
  pieces off (p ∷ ps) len last = piece off copyincr p (pieces (off + copyincr) ps len last)

  copy_pieces-end : (n size off : ℕ) → off ≡ size → copy_pieces n fdin fdout size off ≡ skip
  unfolding copy_pieces
  copy_pieces-end zero size off e = refl
  copy_pieces-end (suc n) size off e =
      let done : ltb off size ≡ false = ground arith in rw done refl

  module _ {K : Type 0} (kernel : Kernel K) where
    -- With more rounds than pieces and no failing call, the bytes from the offset to the size
    -- are copied once each, to the place that they come from, in pieces of copyincr bytes and a
    -- last one that may be shorter, and no mapping is left.
    pub copy_pieces-pieces :
        (n size off len : ℕ) (ps : List (ℕ × ℕ)) (last : ℕ × ℕ) (s : K)
        → size ≡ off + (copyincr * length ps + len)
        → 0 < len
        → len ≤ copyincr
        → length ps + 1 < n
        → Answers kernel s (pieces off ps len last)
        → Makes kernel (copy_pieces n fdin fdout size off) s (pieces off ps len last) (returned tt)
    unfolding run copy_pieces
    copy_pieces-pieces zero size off len ps last s e pos le h a = absurd (omega arith)
    copy_pieces-pieces (suc n) size off len [] (src, dst) s e pos le h (a1, (a2, a)) =
        let more : ltb off size ≡ true = ground arith in
        let whole : piece_size size off ≡ len = ground arith in
        rw (more, whole)
          (Makes-invoke kernel a1 (
            Makes-invoke kernel a2 (
              Makes-invoke kernel refl (
                Makes-invoke kernel refl (
                  Makes-invoke kernel refl (
                    rw (copy_pieces-end n size (off + len) (omega (arith, e)))
                      (Makes-ret kernel)))))))
    copy_pieces-pieces (suc n) size off len ((src, dst) ∷ ps) last s e pos le h
          (a1, (a2, (_, (_, (_, a))))) =
        let more : ltb off size ≡ true = ground arith in
        let whole : piece_size size off ≡ copyincr = ground arith in
        rw (more, whole)
          (Makes-invoke kernel a1 (
            Makes-invoke kernel a2 (
              Makes-invoke kernel refl (
                Makes-invoke kernel refl (
                  Makes-invoke kernel refl (
                    copy_pieces-pieces n size (off + copyincr) len ps last _ (ground arith) pos le
                      (omega arith) a))))))
