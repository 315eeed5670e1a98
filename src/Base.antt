-- ===== src/Base.antt =====
-- What the models of all components share: native numbers, tests, integers, lists, maps, and the
-- chain of steps that can panic. A Go run-time panic (an index out of range) is `none`.
mod Tests
mod Lists
mod Int
mod Maps
mod Panic
pub use Tests.*
pub use Lists.*
unfoldable pub use Maps.{find, put, delete}
pub use Maps.{find-put, find-delete, find-put_self, find-put_ne, find-delete_self, find-delete_ne}
pub use Panic.*
unfoldable pub use Int.{◌+ℤ◌, ◌-ℤ◌}
pub use Int.{
  ℤ, pos, negsuc, pos_part, neg_part, sub_ℕ, ◌≤ℤ◌, leb_ℤ, eqb_ℤ, minus_one, eqb_ℤ→eq, eqb_ℤ-refl,
  +ℤ_parts, -ℤ_parts, eq_of_parts, int_laws,
}
pub use Prim.Native.Nat.{ℕ, zero, suc, ◌+◌, ◌-◌, ◌*◌, ◌/◌, ◌%◌, ◌≤◌, ◌<◌}
pub use mathlib.Core.Path.{◌≡◌, refl, sym, ap, ◌∙◌, subst}
pub use mathlib.Core.Logic.{◌≢◌, ◌↔◌, ◌⊎◌, inl, inr}
pub use mathlib.Core.Bool.{Bool, true, false, not, ◌&&◌, ◌||◌}
pub use mathlib.Core.Option.{Option, none, some}
pub use mathlib.Core.List.{List, [], ◌∷◌, ◌++◌, map, append-nil, append_assoc}
pub use native.Mathlib.Omega.{arith}
unfoldable pub use native.Mathlib.Decide.{dec_lt, ℕ_discrete}
