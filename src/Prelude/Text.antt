-- ===== src/Prelude/Text.antt =====
-- A JavaScript string is a sequence of UTF-16 code units. The operations are those of `String` that
-- the sources call, on the code units.
use Prim.Native.Char.{code}
use Prim.Native.String.{String}
use Prim.Native.Nat.{ℕ, compare, Ordering}
use mathlib.Core.Path.{◌≡◌, refl}
use mathlib.Core.Bool.{Bool, true, false, not}
use mathlib.Core.List.{List, [], ◌∷◌}
use native.Mathlib.Omega.{arith}
use native.Mathlib.Decide.{ℕ_discrete}
use obsidian_air_sync.Prelude.Equality.{Eq, nat_eq}

abbrev pub Str : Type 0
Str = List ℕ

-- The code units of a literal, whose characters all lie in the basic plane.
abbrev pub codes : String → Str
codes String.[] = []
codes (String.◌∷◌ c s) = code c ∷ codes s

unfoldable pub Str-discrete : Discrete Str
unfolding ℕ_discrete
Str-discrete = hlevel ℕ_discrete

instance unfoldable pub str_eq : Eq Str
unfolding Str-discrete
str_eq = record { dec = Str-discrete }

-- A string in a condition: only the empty string is falsy.
abbrev pub is_empty : Str → Bool
is_empty [] = true
is_empty (c ∷ s) = false

abbrev pub truthy : Str → Bool
truthy s = not (is_empty s)

-- `a < b` on strings: the order of the code units.
unfoldable pub str_ltb : Str → Str → Bool
str_ltb [] [] = false
str_ltb [] (d ∷ t) = true
str_ltb (c ∷ s) [] = false
str_ltb (c ∷ s) (d ∷ t) =
    let rest = str_ltb s t in
    elim (compare c d) [ Ordering.lt ↦ true | Ordering.eq ↦ rest | Ordering.gt ↦ false ]

pub str_ltb_irrefl : (s : Str) → str_ltb s s ≡ false
unfolding str_ltb
str_ltb_irrefl [] = refl
str_ltb_irrefl (c ∷ s) = ground (arith, str_ltb_irrefl s)

pub str_ltb_trans : (s t u : Str) → str_ltb s t ≡ true → str_ltb t u ≡ true → str_ltb s u ≡ true
unfolding str_ltb
str_ltb_trans [] [] u p q = cc
str_ltb_trans s (d ∷ t) [] p q = cc
str_ltb_trans [] (d ∷ t) (e ∷ u) p q = refl
str_ltb_trans (c ∷ s) [] (e ∷ u) p q = cc
str_ltb_trans (c ∷ s) [] [] p q = cc
str_ltb_trans (c ∷ s) (d ∷ t) (e ∷ u) p q = ground (arith, str_ltb_trans s t u)

pub str_ltb_connex : (s t : Str) → str_ltb s t ≡ false → str_ltb t s ≡ false → s ≡ t
unfolding str_ltb
str_ltb_connex [] [] p q = refl
str_ltb_connex [] (d ∷ t) p q = cc
str_ltb_connex (c ∷ s) [] p q = cc
str_ltb_connex (c ∷ s) (d ∷ t) p q = ground (arith, str_ltb_connex s t)
