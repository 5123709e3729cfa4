-- ===== src/Prelude/Texts.antt =====
-- Texts in the order of their code points, as Python compares `str`.
use Prim.Native.Nat.{ℕ}
use Prim.Native.Char.{code}
use Prim.Native.String.{String}
use mathlib.Core.Path.{◌≡◌, refl, ap₂}
use mathlib.Core.Bool.{Bool, true, false}
use mathlib.Core.List.{List, [], ◌∷◌}
use native.Mathlib.Omega.{arith}
use text.Mathlib.TextEquality.{Char-path}
use aiops_runner.Prelude.Tests.{ltb, ◌==◌, if◌then◌else◌}

abbrev pub codes : String → List ℕ
codes String.[] = []
codes (String.◌∷◌ c s) = code c ∷ codes s

pub codes_lt : List ℕ → List ℕ → Bool
codes_lt [] [] = false
codes_lt [] (b ∷ bs) = true
codes_lt (a ∷ as') [] = false
codes_lt (a ∷ as') (b ∷ bs) = if ltb a b then true else if a == b then codes_lt as' bs else false

-- `a < b`
unfoldable pub str_lt : String → String → Bool
unfolding codes_lt
str_lt a b = codes_lt (codes a) (codes b)

codes-injective : (s t : String) → codes s ≡ codes t → s ≡ t
codes-injective String.[] String.[] e = refl
codes-injective String.[] (String.◌∷◌ d t) e = cc
codes-injective (String.◌∷◌ c s) String.[] e = cc
codes-injective (String.◌∷◌ c s) (String.◌∷◌ d t) e =
    ap₂ String.◌∷◌ (Char-path c d (cc)) (codes-injective s t (cc))

codes_lt_asym : (a b : List ℕ) → codes_lt a b ≡ true → codes_lt b a ≡ false
unfolding codes_lt
codes_lt_asym [] [] h = refl
codes_lt_asym [] (b ∷ bs) h = refl
codes_lt_asym (a ∷ as') [] h = cc
codes_lt_asym (a ∷ as') (b ∷ bs) h = ground (arith, codes_lt_asym as' bs)

codes_lt_trans : (a b c : List ℕ) → codes_lt a b ≡ true → codes_lt b c ≡ true → codes_lt a c ≡ true
unfolding codes_lt
codes_lt_trans [] [] c h k = cc
codes_lt_trans [] (b ∷ bs) [] h k = cc
codes_lt_trans [] (b ∷ bs) (c ∷ cs) h k = refl
codes_lt_trans (a ∷ as') [] c h k = cc
codes_lt_trans (a ∷ as') (b ∷ bs) [] h k = cc
codes_lt_trans (a ∷ as') (b ∷ bs) (c ∷ cs) h k = ground (arith, codes_lt_trans as' bs cs)

codes_lt_total : (a b : List ℕ) → codes_lt a b ≡ false → codes_lt b a ≡ false → a ≡ b
unfolding codes_lt
codes_lt_total [] [] h k = refl
codes_lt_total [] (b ∷ bs) h k = cc
codes_lt_total (a ∷ as') [] h k = cc
codes_lt_total (a ∷ as') (b ∷ bs) h k = ground (arith, codes_lt_total as' bs)

pub str_lt_asym : (a b : String) → str_lt a b ≡ true → str_lt b a ≡ false
unfolding str_lt
str_lt_asym a b h = codes_lt_asym (codes a) (codes b) h

pub str_lt_trans : (a b c : String) → str_lt a b ≡ true → str_lt b c ≡ true → str_lt a c ≡ true
unfolding str_lt
str_lt_trans a b c h k = codes_lt_trans (codes a) (codes b) (codes c) h k

pub str_lt_total : (a b : String) → str_lt a b ≡ false → str_lt b a ≡ false → a ≡ b
unfolding str_lt
str_lt_total a b h k = codes-injective a b (codes_lt_total (codes a) (codes b) h k)
