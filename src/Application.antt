-- ===== src/Application.antt =====
-- src/dispatch_core/application: the ports and the services over them.
pub mod Exec
pub mod Ports
pub mod Service
pub mod Task
pub mod AsyncPorts
pub mod AsyncService
