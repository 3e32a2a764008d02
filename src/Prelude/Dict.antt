-- ===== src/Prelude/Dict.antt =====
-- Python's `dict`: its operations, and its laws as a list of entries.
mod Defs
mod Entries
unfoldable pub use Defs.*
unfoldable pub use Entries.*
