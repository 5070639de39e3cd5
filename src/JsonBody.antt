-- ===== src/JsonBody.antt =====
-- internal/jsonbody: JSON values and the libraries that read and write them (Value), the comparison
-- of a desired with a remote body (Diff), paths into a body (Paths), and what is rendered and
-- extracted (Render).
pub mod Value
pub mod Diff
pub mod Paths
pub mod Render
