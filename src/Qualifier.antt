-- ===== src/Qualifier.antt =====
-- pkg/qualifier: qualifiers, their order, sets of their names, and their translation to commands.
mod Defs
pub mod Set
pub mod Sorter
pub mod Translator
pub use Defs.{Qualifier}
