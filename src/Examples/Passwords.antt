-- ===== src/Examples/Passwords.antt =====
-- term_io/getpass_demo.c against a concrete kernel.
use unix_demos.Base.{ℕ, refl, true, false, Option, none, some, [], ◌∷◌, ◌++◌, take, arith}
use unix_demos.Os.{Bytes, getc, Termios}
use unix_demos.Os.Run.{Kernel, returned, Makes}
use unix_demos.Terminal.{array, getpass}
use unix_demos.Terminal.Password.{typed, silenced, restored, getpass-take}
use unix_demos.Examples.Kernels.{succeeds}

abbrev pop : Bytes → Option ℕ × Bytes
pop [] = (none, [])
pop (c ∷ cs) = (some c, cs)

abbrev typing : Kernel Bytes
typing (getc fp) s = pop s
typing c s = (succeeds c, s)

abbrev with_echo : Termios
with_echo = record { echo = true; echoe = true; echok = true; echonl = false; others = 0 }

abbrev ten : Bytes
ten = b'0' ∷ b'1' ∷ b'2' ∷ b'3' ∷ b'4' ∷ b'5' ∷ b'6' ∷ b'7' ∷ b'8' ∷ b'9' ∷ []

getpass-take_example :
    Makes typing
      (getpass 11 (b'?' ∷ []))
      (ten ++ b'\n' ∷ [])
      (silenced typing 9 [] with_echo (b'?' ∷ []) true
        ++ (typed 9 ten ++ restored typing 9 [] [] with_echo true))
      (returned (some (array (take 8 ten))))
getpass-take_example =
    getpass-take typing 11 9 (b'?' ∷ []) ten [] [] with_echo true true (ten ++ b'\n' ∷ []) refl
      (omega arith)
      (
        refl,
        (
          refl,
          (
            refl,
            (
              refl,
              (
                refl,
                (
                  refl,
                  (
                    refl,
                    (
                      refl,
                      (
                        refl,
                        (
                          refl,
                          (
                            refl,
                            (
                              refl,
                              (
                                refl,
                                (refl, (refl, (refl, (refl, (refl, (refl, (refl, (refl, tt)))))))),
                              ),
                            ),
                          ),
                        ),
                      ),
                    ),
                  ),
                ),
              ),
            ),
          ),
        ),
      )
