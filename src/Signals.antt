-- ===== src/Signals.antt =====
-- signal/: the printing of signal sets (signal/signal_demo.c), and the programs that send and receive
-- signals. `atoi` and `strsignal` of the C library are parameters.
pub mod Sets
pub mod Delivery
pub mod Receiver
pub mod Realtime
pub mod Queue
pub mod Exchange
pub mod Sender
pub mod Suspend
pub mod Reentrant
pub mod Reenter
pub mod Jump
pub mod Waiting
use unix_demos.Base.{ℕ}

abbrev pub nsig : ℕ
nsig = 65

abbrev pub sigint : ℕ
sigint = 2

abbrev pub sigquit : ℕ
sigquit = 3

abbrev pub sigusr1 : ℕ
sigusr1 = 10

abbrev pub sigsegv : ℕ
sigsegv = 11

abbrev pub sigusr2 : ℕ
sigusr2 = 12

abbrev pub sigalrm : ℕ
sigalrm = 14

abbrev pub sigterm : ℕ
sigterm = 15

abbrev pub sigtstp : ℕ
sigtstp = 20
