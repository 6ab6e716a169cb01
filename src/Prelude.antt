-- ===== src/Prelude.antt =====
-- The names that the other modules share: the libraries', passed on, and those of the children.
mod Tests
mod Lists
mod Signed
mod Members
pub use Tests.*
unfoldable pub use Lists.{overwrite}
pub use Lists.{
  length, get_or, set, take, drop, replicate, length-append, length-set, length-take, length-drop,
  length-replicate, get_or-set_self, get_or-set_ne, take_all, drop_all, take-append_left,
  drop-append_right, drop-append_left, take-append-drop, drop-drop, get_or-append_left, slice,
  slice-append_left, slice-append_right, length-overwrite, slice-overwrite_self,
  slice-overwrite_left, slice-overwrite_right, overwrite_all,
}
pub use Signed.*
pub use Members.*
pub use Prim.Native.Nat.{
  ℕ, zero, suc, ◌+◌, ◌-◌, ◌*◌, ◌/◌, ◌%◌, ◌^◌, ◌≤◌, ◌<◌, min, bit_and, bit_or, bit_xor,
}
pub use mathlib.Core.Path.{◌≡◌, refl, sym, ap, ap₂, ◌∙◌, subst, fun_ext}
pub use mathlib.Core.Logic.{◌≢◌, ◌↔◌, ◌⊎◌, inl, inr}
pub use mathlib.Core.Bool.{Bool, true, false, ◌&&◌, ◌||◌, not}
pub use mathlib.Core.Option.{Option, none, some}
pub use mathlib.Core.List.{List, [], ◌∷◌, ◌++◌, map, map-append, append-nil, append_assoc}
pub use native.Mathlib.Omega.{arith}
