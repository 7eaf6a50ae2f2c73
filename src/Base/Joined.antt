-- ===== src/Base/Joined.antt =====
-- The length of `sep.join(parts)` for a separator of one character.
use Prim.Native.Nat.{ℕ, ◌+◌, ◌≤◌}
use mathlib.Core.Path.{◌≡◌}
use mathlib.Core.List.{List, [], ◌∷◌, ◌++◌}
use native.Mathlib.Omega.{arith}
use lucyd.Base.Lists.{length, length-append}
use lucyd.Base.Str.{Text, join}

unfoldable pub total : List Text → ℕ
total [] = 0
total (t ∷ ts) = length t + total ts

pub length-join_cons :
    (sep t : Text) (ts : List Text)
    → length sep ≡ 1
    → length (join sep (t ∷ ts)) ≡ length t + (total ts + length ts)
unfolding join total
length-join_cons sep t [] h = omega arith
length-join_cons sep t (u ∷ ts) h = omega (
  arith,
  length-append t (sep ++ join sep (u ∷ ts)),
  length-append sep (join sep (u ∷ ts)),
  length-join_cons sep u ts h,
)

pub length-join :
    (sep : Text) (ts : List Text) → length sep ≡ 1 → length (join sep ts) ≤ total ts + length ts
unfolding join total
length-join sep [] h = omega arith
length-join sep (t ∷ ts) h = omega (arith, length-join_cons sep t ts h)
