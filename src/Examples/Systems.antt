-- ===== src/Examples/Systems.antt =====
-- The theorems on pthread/recursive_lock.c, pthread/pthread_signal.c, proc_demos/modify_env.c and
-- sys_info/getpwnam_demo.c at concrete inputs.
use unix_demos.Base.{
  map, ℕ, ◌≡◌, refl, false, Option, none, some, List, [], ◌∷◌, ◌++◌, codes, arith,
}
use unix_demos.Os.{Bytes, Passwd, setpwent, getpwent, endpwent, thread_create}
use unix_demos.Os.Run.{Kernel, returned, Makes}
use unix_demos.Examples.Kernels.{succeeds}
use unix_demos.Environ.{find_value}
use unix_demos.Environ.Lookup.{entry}
use unix_demos.Environ.Modify.{modify_env}
use unix_demos.Environ.Modify.Greeting.{modify_env-lookup}
use unix_demos.Threads.Quit.{System, Thread, waiting}
use unix_demos.Files.Users.{getpwdname, entries, getpwdname-lookup}

-- No thread can be made.
abbrev no_threads : Kernel (Unit {0})
no_threads (thread_create detached fn arg) s = (none, s)
no_threads c s = (succeeds c, s)

abbrev user : (name : Bytes) → (uid : ℕ) → Passwd
user name uid = record {
  pw_name = name;
  pw_passwd = codes "x";
  pw_uid = uid;
  pw_gid = uid;
  pw_gecos = [];
  pw_dir = codes "/";
  pw_shell = codes "/bin/sh";
}

abbrev users : List Passwd
users = user (codes "root") 0 ∷ user (codes "zach41") 1000 ∷ user (codes "other") 1001 ∷ []

-- The database is read from a list.
abbrev next_user : List Passwd → Option Passwd × List Passwd
next_user [] = (none, [])
next_user (u ∷ us) = (some u, us)

abbrev database : Kernel (List Passwd)
database getpwent us = next_user us
database c us = (succeeds c, us)

getpwdname-lookup_example :
    Makes database
      (getpwdname 4 (codes "zach41"))
      users
      ((setpwent, tt) ∷ (entries (codes "zach41") users [] ++ (endpwent, tt) ∷ []))
      (returned (some (user (codes "zach41") 1000)))
getpwdname-lookup_example =
    getpwdname-lookup database users 4 (codes "zach41") users (omega arith)
      (refl, (refl, (refl, (refl, tt))))

abbrev settings : List (Bytes × Bytes)
settings = (codes "BYE", codes "1") ∷ (codes "X", codes "2") ∷ (codes "X", codes "3") ∷ []

modify_env-lookup_example :
    find_value (codes "X") (modify_env (map entry settings)) ≡ some (codes "3")
modify_env-lookup_example = modify_env-lookup (codes "X") settings refl (refl, (refl, (refl, tt)))

-- The main thread waits, and the other one has taken SIGQUIT.
abbrev woken_up : System
woken_up = record { lock = false; quitflag = false; main = waiting; thread = Thread.locking }
