-- ===== src/Base.antt =====
-- The names that the other modules share: the libraries', passed on, and those of the children.
mod Tests
mod Lists
mod Loop
pub mod Int
pub use Tests.*
pub use Lists.{
  Bytes, codes, length, get_elem?, get_or, take, drop, replicate, length-append, length-drop, All,
  all, passes-at, set, length-set, get_or-set_self, get_or-set_ne, length-replicate,
  get_elem?-append_left, get_elem?-append_end, get_elem?-none, get_elem?-lt, get_elem?-snoc,
  get_elem?-set_self, get_elem?-set_ne, get_elem?-some, none_ne_some, same_bytes, same_bytes→eq,
  same_bytes_refl,
}
unfoldable pub use Lists.{passes}
pub use Int.{ℤ, pos, negsuc, abs, minus, is_negative}
pub use Loop.{Turn, again, leave, Falls, run-again, run-leave, run_inv}
unfoldable pub use Loop.{loop, run}
pub use Prim.Native.Nat.{ℕ, zero, suc, ◌+◌, ◌-◌, ◌*◌, ◌/◌, ◌%◌, ◌^◌, ◌≤◌, ◌<◌}
pub use mathlib.Core.Bool.{Bool, true, false, not, ◌&&◌, ◌||◌}
pub use mathlib.Core.List.{List, [], ◌∷◌, ◌++◌, append-nil, append_assoc}
pub use mathlib.Core.Logic.{◌≢◌, ◌↔◌, ◌⊎◌, inl, inr}
pub use mathlib.Core.Option.{Option, none, some}
pub use mathlib.Core.Path.{◌≡◌, refl, sym, ap, subst, ◌∙◌}
pub use native.Mathlib.Omega.{arith}
