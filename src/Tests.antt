-- ===== src/Tests.antt =====
-- Concrete runs: fixtures, executable tests, and the theorems applied to them.
mod Fixtures
mod JournalTests
mod ControllerTests
mod NativeTests
mod TransactionTests
mod ModelTests
mod CoordinatorTests
mod AuraTests
mod WebTests
mod ConfigTests
