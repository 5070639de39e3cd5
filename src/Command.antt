-- ===== src/Command.antt =====
-- cmd and internal/config: the process from its flags to its managers. cobra, pflag, viper and
-- controller-runtime are parameters.
pub mod Config
pub mod Flags
pub mod Run
