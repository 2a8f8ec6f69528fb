-- ===== src/Tests.antt =====
-- Tests of the definitions at concrete inputs, and the theorems applied to them.
mod Domain
mod Files
mod Rotation
mod UseCases
mod Containers
mod Crypto
mod Coding
mod Servers
mod History
mod Schedule
mod Services
mod Configured
