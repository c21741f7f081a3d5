-- ===== src/Examples.antt =====
-- The theorems at concrete inputs.
mod Kernels
mod JobQueues
mod Foos
mod Semaphores
mod Daemons
mod Epolls
mod Pipes
mod Locks
mod Passwords
mod Environments
mod Sorting
mod Conditions
mod Signalling
mod Processing
mod Systems
