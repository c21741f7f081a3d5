-- ===== src/Files/Reports.antt =====
-- file_io/access_demo.c and sys_info/time_demo.c
use Prim.Native.String.{String}
use unix_demos.Base.{ℕ, none, some, ◌++◌, if◌then◌else◌, codes}
use unix_demos.Os.{
  Bytes, access, open_file, clock_gettime, strftime, fprintf, stdout, Prog, ret, ◌>>=◌, ◌>>◌, sys,
}

-- `main` of access_demo.c behind its test of the arguments: the real user is asked for, then the effective
-- one. `error` is the text of the error.
unfoldable pub access_demo : (error : Bytes) → (path : String) → Prog ℕ
access_demo error path = do
  ok ← sys (access path)
  if ok
      then sys (fprintf stdout (codes "read access OK\n"))
      else sys (
          fprintf 2
            (codes "access error for " ++ (codes path ++ (codes ": " ++ (error ++ codes "\n")))))
  opened ← sys (open_file path)
  elim opened [
    | none ↦ sys (
        fprintf 2
          (codes "open error for " ++ (codes path ++ (codes ": " ++ (error ++ codes "\n")))))
    | some fd ↦ sys (fprintf stdout (codes "open for reading OK\n"))
  ]
  ret 0

-- A text that fits into the buffer, or the line that it does not.
abbrev pub print_time : (size : ℕ) → (too_small : Bytes) → Prog (Unit {0})
print_time size too_small = do
  buf ← sys (strftime size)
  elim buf [
    | none ↦ sys (fprintf stdout too_small)
    | some text ↦ sys (fprintf stdout (text ++ codes "\n"))
  ]

-- `main` of time_demo.c
unfoldable pub time_demo : Prog ℕ
time_demo = do
  sys clock_gettime
  print_time 16 (codes "buffer length 16 is too small\n")
  print_time 64 (codes "buffer length 64 is too small\n")
  ret 0
