-- ===== src/Common.antt =====
-- What the modules share: the names of the libraries, passed on, the tests and the conditional,
-- vectors as lists, and the C++ integers.
mod Tests
mod Lists
mod Ints
mod Maps
mod Threads
mod Bytes
mod Atoi
pub use Tests.*
pub use Lists.*
unfoldable pub use Ints.*
unfoldable pub use Maps.*
unfoldable pub use Threads.*
unfoldable pub use Bytes.*
unfoldable pub use Atoi.*
pub use Prim.Native.Nat.{ℕ, zero, suc, ◌+◌, ◌-◌, ◌*◌, ◌/◌, ◌%◌, ◌^◌, ◌≤◌, ◌<◌}
pub use mathlib.Core.Path.{◌≡◌, refl, sym, ap, ap₂, ◌∙◌}
pub use mathlib.Core.Logic.{◌≢◌, ◌↔◌, ◌⊎◌, inl, inr}
pub use mathlib.Core.Bool.{Bool, true, false, ◌&&◌, ◌||◌, not}
pub use mathlib.Core.Option.{Option, none, some}
pub use mathlib.Core.List.{List, [], ◌∷◌, ◌++◌, append_assoc, append-nil}
pub use native.Mathlib.Omega.{arith}
