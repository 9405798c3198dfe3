-- ===== src/Tests.antt =====
-- Runs of the modelled code on concrete states, and the theorems at these.
pub mod ConsoleTests
pub mod AllocatorTests
pub mod IdtTests
pub mod KeyboardTests
pub mod KernelTests
pub mod Stage2Tests
pub mod DriveTests
pub mod FilesTests
pub mod VesaTests
