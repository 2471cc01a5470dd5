-- ===== src/Base.antt =====
-- What every module shares: numbers, tests, lists, options, texts and their decimal form.
mod Tests
mod Lists
pub mod Texts
pub mod Decimal
pub mod Integers
pub mod Results
pub use Tests.*
pub use Lists.*
unfoldable pub use Texts.{Text, text, text_eq, starts_with, strip_prefix, ends_with, trim_start}
pub use Texts.{text_eq_iff, text_eq_refl}
pub use Prim.Native.Nat.{ℕ, zero, suc, ◌+◌, ◌-◌, ◌*◌, ◌/◌, ◌%◌, ◌^◌, ◌≤◌, ◌<◌, min, max}
pub use Prim.Native.String.{String}
pub use mathlib.Core.Path.{◌≡◌, refl, sym, ap, ◌∙◌, fun_ext}
pub use mathlib.Core.Logic.{◌≢◌, ◌↔◌, ◌⊎◌, inl, inr}
pub use mathlib.Core.Bool.{Bool, true, false, not, ◌&&◌, ◌||◌}
pub use mathlib.Core.Option.{Option, none, some}
pub use mathlib.Core.List.{List, [], ◌∷◌, ◌++◌, map, Memᴰ}
pub use native.Mathlib.Omega.{arith}
