-- ===== src/Base.antt =====
-- The names that every module shares: the library's, passed on, and those of the children below.
-- A Go string is the list of its bytes where the program walks it, and a native text where the
-- program only compares and concatenates whole texts (environment variables, settings).
mod Tests
mod Lists
mod Text
mod Process
mod Outcome
mod Int
mod Lines
pub use Tests.*
pub use Lists.*
unfoldable pub use Text.*
unfoldable pub use Lines.*
pub use Outcome.*
pub use Int.*
unfoldable pub use Process.*
pub use Prim.Native.Nat.{ℕ, zero, suc, ◌+◌, ◌-◌, ◌*◌, ◌/◌, ◌%◌, ◌^◌, ◌≤◌, ◌<◌}
pub use mathlib.Core.Path.{◌≡◌, refl, sym, ap, ◌∙◌}
pub use mathlib.Core.Logic.{◌≢◌, ◌↔◌, ◌⊎◌, inl, inr}
pub use mathlib.Core.Bool.{Bool, true, false, not, ◌&&◌, ◌||◌}
pub use mathlib.Core.Option.{Option, none, some}
pub use mathlib.Core.List.{List, [], ◌∷◌, ◌++◌, map, append_assoc, append-nil}
pub use native.Mathlib.Omega.{arith}
pub use Prim.Native.String.{String}
pub use text.Mathlib.Text.{◌==◌ as str_eq}
pub use text.Mathlib.TextEquality.{eq_iff}
