-- ===== src/Environ/Modify.antt =====
-- proc_demos/modify_env.c and proc_demos/print_env.c: the environment is a list of texts. putenv takes the
-- place of the variable with its name, or stands last; a text without = takes its variable away. malloc is
-- taken to succeed.
pub mod Pairs
pub mod Greeting
use unix_demos.Base.{
  ℕ, ◌≡◌, refl, sym, ap, ◌∙◌, Bool, true, false, not, ◌&&◌, Option, none, some, List, [], ◌∷◌, ◌++◌,
  map, ◌==◌, if◌then◌else◌, same_text, codes, arith, inl, inr, Bool-cases,
}
use unix_demos.Os.{Bytes, fprintf, stdout, Prog, ret, exit, ◌>>=◌, ◌>>◌, sys, skip}
use unix_demos.Environ.{value_of, find_value}
use unix_demos.Environ.Lookup.{
  no_equals, lookup, AllNames, entry, value_of-entry, find_value-lookup,
}

-- The text in front of the =.
abbrev pub name_of : Bytes → Bytes
name_of [] = []
name_of (c ∷ cs) = if c == b'=' then [] else c ∷ name_of cs

abbrev pub is_some : Option Bytes → Bool
is_some none = false
is_some (some v) = true

abbrev pub is_named : (name text : Bytes) → Bool
is_named name text = is_some (value_of name text)

unfoldable pub unsetenv : (name : Bytes) → List Bytes → List Bytes
unsetenv name [] = []
unsetenv name (text ∷ env) =
    let rest = unsetenv name env in if is_named name text then rest else text ∷ rest

abbrev pub replace : (name text : Bytes) → List Bytes → List Bytes
replace name text [] = text ∷ []
replace name text (e ∷ env) = if is_named name e then text ∷ env else e ∷ replace name text env

unfoldable pub putenv : (text : Bytes) → List Bytes → List Bytes
unfolding unsetenv
putenv text env = if no_equals text then unsetenv text env else replace (name_of text) text env

-- `setenv(name, value, 0)`
unfoldable pub setenv : (name value : Bytes) → List Bytes → List Bytes
setenv name value env =
    if is_some (find_value name env) then env else env ++ (name ++ b'=' ∷ value) ∷ []

-- The loop over the arguments.
abbrev pub put_all : (args : List Bytes) → List Bytes → List Bytes
put_all [] env = env
put_all (arg ∷ args) env = put_all args (putenv arg env)

abbrev pub greet : Bytes
greet = codes "GREET"

abbrev pub bye : Bytes
bye = codes "BYE"

abbrev pub hello_world : Bytes
hello_world = codes "Hello world"

-- The environment that modify_env.c makes from its arguments.
unfoldable pub modify_env : (args : List Bytes) → List Bytes
unfolding putenv setenv unsetenv
modify_env args = unsetenv bye (setenv greet hello_world (put_all args []))

-- `for (ep = environ; *ep != NULL; ep++) puts(*ep);`
unfoldable pub print_env : (environ : List Bytes) → Prog (Unit {0})
print_env [] = skip
print_env (text ∷ env) = sys (fprintf stdout (text ++ codes "\n")) >> print_env env
