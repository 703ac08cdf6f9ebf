-- ===== src/Tests.antt =====
-- Runs of the model on small inputs, and the theorems at inputs that meet their hypotheses.
mod Stocks
mod Requests
mod Shell
mod Threads
mod ShellLines
mod Allocator
mod Calculating
mod Pages
mod Commands
mod ShellRounds
mod Merging
