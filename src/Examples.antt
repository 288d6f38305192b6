-- ===== src/Examples.antt =====
-- The theorems at concrete inputs, one module for each part of the program.
mod Data
mod Queue
mod Runtime
mod Input
mod Output
mod Net
mod Scheduler
mod Rpc
mod Session
mod Exchange
mod Press
mod Threads
mod Lifetime
