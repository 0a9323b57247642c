-- ===== src/Base/Text.antt =====
-- Go's `strings.TrimSpace` and the rune functions that the program uses.
use Prim.Native.Nat.{ℕ, zero, suc}
use Prim.Native.Char.{code}
use Prim.Native.String.{String, [], ◌∷◌}
use mathlib.Core.Path.{◌≡◌, refl}
use mathlib.Core.Bool.{Bool, true, ◌&&◌, ◌||◌}
use mathlib.Core.Logic.{inl, inr}
use mathlib.Core.HLevel.{hedberg}
use text.Mathlib.Text.{◌==◌}
use text.Mathlib.TextEquality.{eq_iff}
use ratchet_cli.Base.Tests.{leb, eqb, if◌then◌else◌, Bool-cases}

-- `unicode.IsSpace`
unfoldable pub is_space : ℕ → Bool
is_space c =
    (leb 9 c && leb c 13)
    || eqb c 32
    || eqb c 0x85
    || eqb c 0xa0
    || eqb c 0x1680
    || (leb 0x2000 c && leb c 0x200a)
    || eqb c 0x2028
    || eqb c 0x2029
    || eqb c 0x202f
    || eqb c 0x205f
    || eqb c 0x3000

unfoldable pub is_blank : String → Bool
unfolding is_space
is_blank [] = true
is_blank (c ∷ s) = is_space (code c) && is_blank s

unfoldable pub trim_left : String → String
unfolding is_space
trim_left [] = ""
trim_left (c ∷ s) = if is_space (code c) then trim_left s else c ∷ s

unfoldable pub trim_right : String → String
unfolding is_space is_blank
trim_right [] = ""
trim_right (c ∷ s) = if is_space (code c) && is_blank s then "" else c ∷ trim_right s

unfoldable pub trim_space : String → String
unfolding trim_left trim_right
trim_space s = trim_right (trim_left s)

unfoldable pub count_chars : String → ℕ
count_chars [] = 0
count_chars (c ∷ s) = suc (count_chars s)

unfoldable pub take_chars : ℕ → String → String
take_chars zero s = ""
take_chars (suc n) [] = ""
take_chars (suc n) (c ∷ s) = c ∷ take_chars n s

trim_space_test : trim_space "  a b\n" ≡ "a b"
unfolding trim_space
trim_space_test = refl

pub String-discrete : Discrete String
String-discrete s t = elim (Bool-cases (s == t)) [
  | inl e ↦ yes ((eq_iff s t).0 e)
  | inr e ↦ no (λ p. cc ((eq_iff s t).1 p))
]

pub String-set : IsSet String
String-set = hedberg String-discrete
