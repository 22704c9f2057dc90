-- ===== src/Config.antt =====
-- Package `config` (config/config.go): the matchers that name processes, and the rules they come from.
pub mod Matchers
pub mod Rules
pub mod Agree
pub mod Alike
pub mod Stateless
pub mod Settings
