-- ===== src/Tests.antt =====
-- Each of the modules below runs a part of the program on concrete values.
mod Samples
mod Policies
mod Logs
mod Keys
mod Signing
mod Plists
mod Starts
mod Concurrent
mod Stores
mod Commands
mod Processes
