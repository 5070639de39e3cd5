-- ===== src/Samples.antt =====
-- Concrete inputs: an implementation of the API machinery's helpers that meets their laws, the
-- collaborators and objects of some passes, a provider config with what it references, and a SigNoz
-- that serves a list by pages.
pub mod Helpers
pub mod Passes
pub mod Configs
pub mod Pages
pub mod Json
pub mod Http
pub mod Hosts
