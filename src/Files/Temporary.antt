-- ===== src/Files/Temporary.antt =====
-- std_io/tempfile.c: temporary files are made, looked at and removed. The template in a string literal must
-- not be written to.
use unix_demos.Base.{ℕ, none, some, ◌++◌, codes}
use unix_demos.Os.{
  Bytes, Errno, enoent, mkstemp, stat_bytes, unlink, fprintf, stdout, Prog, ret, fault, ◌>>=◌, ◌>>◌,
  sys, skip, or_exit, exit_failure,
}

-- Whether the text of a template may be written to.
pub data Template : Type 0 where
  array literal : (text : Bytes) → Template

-- `mkstemp` writes the name into its argument.
abbrev pub named : Template → Prog Bytes
named (array text) = do r ← sys (mkstemp text); made ← or_exit 255 r; ret made.1
named (literal text) = fault

-- What is said where `stat` fails; the code goes on after ENOENT.
abbrev pub stat_failed : Errno → Prog (Unit {0})
stat_failed enoent = sys (fprintf stdout (codes "file doesn't exist\n"))
stat_failed _ = sys (fprintf stdout (codes "stat error\n")) >> exit_failure

unfoldable pub make_temp : Template → Prog (Unit {0})
make_temp template = do
  name ← named template
  sys (fprintf stdout (codes "temp name = " ++ (name ++ codes "\n")))
  r ← sys (stat_bytes name)
  elim r [ none ↦ skip | some err ↦ stat_failed err ]
  sys (fprintf stdout (codes "file exists\n"))
  sys (unlink name)

unfoldable pub main : Prog ℕ
unfolding make_temp
main = do
  sys (fprintf stdout (codes "trying to create first temp file...\n"))
  make_temp (array (codes "/tmp/dirXXXXXX"))
  sys (fprintf stdout (codes "trying to create second temp file...\n"))
  make_temp (literal (codes "tmp/dirXXXXXX"))
  ret 0
