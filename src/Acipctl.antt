-- ===== src/Acipctl.antt =====
-- bin/acipctl.rs: the command-line tool that edits the configuration, restarts the service and
-- sends content to it.
pub mod Restart
pub mod Config
pub mod Client
pub mod Command
pub mod Tests
