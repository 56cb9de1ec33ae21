-- ===== src/Common.antt =====
-- Names that every module shares: the libraries' names passed on, Boolean tests, lists measured by
-- the native numbers, byte strings and their order.
mod Tests
mod Lists
mod ByteString
mod Lex
mod Results
pub use Results.{Outcome, ok, error, panic}
pub use Tests.*
pub use Lists.*
unfoldable pub use ByteString.*
unfoldable pub use Lex.*
pub use Prim.Native.Nat.{
  ℕ, zero, suc, ◌+◌, ◌-◌, ◌*◌, ◌/◌, ◌%◌, ◌^◌, ◌≤◌, ◌<◌, min, compare, Ordering,
}
pub use mathlib.Core.Path.{◌≡◌, refl, sym, ap, ◌∙◌}
pub use mathlib.Core.Logic.{◌≢◌, ◌↔◌, ◌⊎◌, inl, inr}
pub use mathlib.Core.Bool.{Bool, true, false, not, ◌&&◌, ◌||◌}
pub use mathlib.Core.Option.{Option, none, some}
pub use mathlib.Core.List.{List, [], ◌∷◌, ◌++◌, map, reverse, append-nil, append_assoc}
pub use native.Mathlib.Omega.{arith}
