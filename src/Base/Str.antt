-- ===== src/Base/Str.antt =====
-- A Python `str` is the list of its code points.
use mathlib.Core.Path.{◌≡◌, refl, subst}
use mathlib.Core.Logic.{◌↔◌}
use native.Mathlib.Omega.{arith}
use Prim.Native.Nat.{ℕ, zero, suc, ◌+◌, ◌/◌, ◌%◌}
use Prim.Native.Char.{code}
use Prim.Native.String.{String}
use mathlib.Core.Bool.{Bool, true, false, ◌&&◌, ◌||◌}
use mathlib.Core.List.{List, [], ◌∷◌, ◌++◌, reverse}
use text.Mathlib.Text.{◌==◌ as str_eq}
use lucyd.Base.Tests.{◌==◌, ltb, if◌then◌else◌}

abbrev pub Text : Type 0
Text = List ℕ

unfoldable pub lit : String → Text
lit String.[] = []
lit (String.◌∷◌ c s) = code c ∷ lit s

-- `s.startswith(prefix)`
unfoldable pub starts_with : Text → Text → Bool
starts_with s [] = true
starts_with [] (p ∷ ps) = false
starts_with (c ∷ s) (p ∷ ps) = c == p && starts_with s ps

-- `needle in s`
unfoldable pub contains : Text → Text → Bool
unfolding starts_with
contains [] needle = starts_with [] needle
contains (c ∷ s) needle = starts_with (c ∷ s) needle || contains s needle

-- `sep.join(parts)`
unfoldable pub join : Text → List Text → Text
join sep [] = []
join sep (p ∷ []) = p
join sep (p ∷ q ∷ ps) = p ++ (sep ++ join sep (q ∷ ps))

digits : ℕ → ℕ → Text → Text
digits zero n acc = acc
digits (suc fuel) n acc =
    let rest = digits fuel (n / 10) ((48 + n % 10) ∷ acc) in
    if ltb n 10 then (48 + n) ∷ acc else rest

-- `str(n)`: a number below 2 ^ 64 has at most 20 digits, and `n + 1` rounds are always enough
unfoldable pub decimal : ℕ → Text
unfolding digits
decimal n = digits (suc n) n []

-- three digits, then a comma, over the digits in reverse
commas : ℕ → Text → Text
commas k [] = []
commas zero (c ∷ cs) = 44 ∷ c ∷ commas 2 cs
commas (suc k) (c ∷ cs) = c ∷ commas k cs

-- `f"{n:,}"`
unfoldable pub grouped : ℕ → Text
unfolding commas decimal
grouped n = reverse (commas 3 (reverse (decimal n)))

unfoldable pub text_eq : Text → Text → Bool
text_eq [] [] = true
text_eq [] (d ∷ ds) = false
text_eq (c ∷ cs) [] = false
text_eq (c ∷ cs) (d ∷ ds) = c == d && text_eq cs ds

-- `t in ts`
unfoldable pub mem_text : Text → List Text → Bool
unfolding text_eq
mem_text t [] = false
mem_text t (u ∷ us) = text_eq t u || mem_text t us

-- `s in names`, for class names and keys
unfoldable pub mem_name : String → List String → Bool
mem_name s [] = false
mem_name s (n ∷ ns) = str_eq s n || mem_name s ns

text_eq_self : (a : Text) → text_eq a a ≡ true
unfolding text_eq
text_eq_self [] = refl
text_eq_self (c ∷ cs) = ground (arith, text_eq_self cs)

equal-of_text_eq : (a b : Text) → text_eq a b ≡ true → a ≡ b
unfolding text_eq
equal-of_text_eq [] [] h = refl
equal-of_text_eq [] (d ∷ ds) h = cc
equal-of_text_eq (c ∷ cs) [] h = cc
equal-of_text_eq (c ∷ cs) (d ∷ ds) h = ground (arith, equal-of_text_eq cs ds)

pub text_eq_iff : (a b : Text) → (text_eq a b ≡ true) ↔ (a ≡ b)
text_eq_iff a b = (equal-of_text_eq a b, λ e. subst (λ x. text_eq a x ≡ true) e (text_eq_self a))
