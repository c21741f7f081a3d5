-- ===== src/Files/Modes.antt =====
-- file_io/lstat_demo.c, file_io/devno.c and file_io/futimens_demo.c: the mode, the device and the times of
-- a file. The type of a file is in the bits S_IFMT of its mode, the four above the lowest twelve.
use Prim.Native.String.{String}
use unix_demos.Base.{
  num, ℕ, ◌/◌, ◌%◌, Bool, ◌||◌, none, some, List, [], ◌∷◌, ◌++◌, ◌==◌, if◌then◌else◌, codes,
}
use unix_demos.Os.{
  Bytes, Stat, stat, lstat, open_file, futimes, close, fprintf, stdout, Prog, ret, ◌>>=◌, ◌>>◌, sys,
  skip, or_exit,
}

-- `mode & S_IFMT`, in units of 4096
abbrev pub file_type : ℕ → ℕ
file_type mode = mode / 4096 % 16

abbrev pub s_isfifo : ℕ → Bool
s_isfifo mode = file_type mode == 1

abbrev pub s_ischr : ℕ → Bool
s_ischr mode = file_type mode == 2

abbrev pub s_isdir : ℕ → Bool
s_isdir mode = file_type mode == 4

abbrev pub s_isblk : ℕ → Bool
s_isblk mode = file_type mode == 6

abbrev pub s_isreg : ℕ → Bool
s_isreg mode = file_type mode == 8

abbrev pub s_islnk : ℕ → Bool
s_islnk mode = file_type mode == 10

abbrev pub s_issock : ℕ → Bool
s_issock mode = file_type mode == 12

-- The text for a mode in file_io/lstat_demo.c.
unfoldable pub mode_text : ℕ → Bytes
mode_text mode =
    if s_isreg mode
    then codes "regular file"
    else if s_isdir mode
    then codes "diretory"
    else if s_ischr mode
    then codes "character special"
    else if s_isblk mode
    then codes "block special"
    else if s_isfifo mode
    then codes "fifo"
    else if s_islnk mode
    then codes "symbolic link"
    else if s_issock mode
    then codes "socket"
    else codes "** unknown mode **"

unfoldable pub lstat_demo : (paths : List String) → Prog ℕ
unfolding mode_text
lstat_demo [] = ret 0
lstat_demo (path ∷ paths) = do
  sys (fprintf stdout (codes path ++ codes ": "))
  r ← sys (lstat path)
  sbuf ← or_exit 255 r
  sys (fprintf stdout (mode_text sbuf.st_mode ++ codes "\n"))
  lstat_demo paths

module _ (major minor : ℕ → ℕ) (strerror : Bytes) where
  -- What file_io/devno.c prints of a file; `major` and `minor` are those of the system.
  unfoldable pub device_text : Stat → Bytes
  device_text sbuf =
      codes "dev = "
      ++ (num (major sbuf.st_dev)
          ++ (codes "/"
              ++ (num (minor sbuf.st_dev)
                  ++ (if s_ischr sbuf.st_mode || s_isblk sbuf.st_mode
                      then codes " ("
                        ++ ((if s_ischr sbuf.st_mode then codes "character" else codes "block")
                            ++ (codes ") rdev = "
                                ++ (num (major sbuf.st_rdev)
                                    ++ (codes "/" ++ num (minor sbuf.st_rdev)))))
                      else []))))

  unfoldable pub devno : (paths : List String) → Prog ℕ
  unfolding device_text
  devno [] = ret 0
  devno (path ∷ paths) = do
    sys (fprintf stdout (codes path ++ codes ": "))
    r ← sys (stat path)
    elim r [
      | none ↦ sys (
          fprintf 2
            (codes "stat error on " ++ (codes path ++ (codes ": " ++ (strerror ++ codes "\n")))))
      | some sbuf ↦ sys (fprintf stdout (device_text sbuf)) >> sys (fprintf stdout (codes "\n"))
    ]
    devno paths

  -- `"… error on %s: %s\n"`
  abbrev pub complain : (what : String) → (path : String) → Prog (Unit {0})
  complain what path =
      sys (fprintf 2 (codes what ++ (codes path ++ (codes ": " ++ (strerror ++ codes "\n")))))

  -- A file of file_io/futimens_demo.c is cut off, and gets back the times that it had, in microseconds.
  unfoldable pub keep_times : (path : String) → Prog (Unit {0})
  keep_times path = do
    r ← sys (stat path)
    elim r [
      | none ↦ complain "stat error on " path
      | some sbuf ↦ do
        opened ← sys (open_file path)
        elim opened [
          | none ↦ complain "open error on " path
          | some fd ↦ do
            set ← sys (
                futimes fd (sbuf.st_atime.0, sbuf.st_atime.1 / 1000)
                  (sbuf.st_mtime.0, sbuf.st_mtime.1 / 1000))
            elim set [ none ↦ complain "futimens error on " path | some u ↦ skip ]
            sys (close fd)
        ]
    ]

  unfoldable pub futimens_demo : (paths : List String) → Prog ℕ
  unfolding keep_times
  futimens_demo [] = ret 0
  futimens_demo (path ∷ paths) = keep_times path >> futimens_demo paths
