-- ===== src/Adapters.antt =====
-- internal/resources/adapters: the exchanges with SigNoz and what the JSON library reads of them
-- (Exchange), the lookups of an object by its identity (Find, and Kinds for each kind), and the
-- transport that all kinds share (Transport).
pub mod Exchange
pub mod Find
pub mod Kinds
pub mod Transport
