-- ===== src/Tests.antt =====
-- A small cluster, the fixture of controller/controller_test.go over it, and the theorems at concrete
-- inputs.
pub mod Cluster
pub mod Queue
pub mod Fixture
mod SyncTests
mod WorkerTests
mod HandlerTests
mod StoreTests
mod ThreadTests
mod CopyTests
mod InformerTests
mod RecoveryTests
mod ClientTests
mod TurnTests
mod FakeTests
mod MainTests
mod SourceTests
mod CalmTests
mod ServedTests
mod SchemeTests
