-- ===== src/Base/Text.antt =====
-- Go strings as byte lists, and what `strings.TrimSpace(s) == ""` asks of one.
use Prim.Native.Nat.{ℕ}
use Prim.Native.Char.{code}
use Prim.Native.String.{String, [], ◌∷◌}
use native.Mathlib.Decide.{ℕ_discrete}
use mathlib.Core.Path.{◌≡◌, refl}
use mathlib.Core.Bool.{Bool, true, ◌&&◌, ◌||◌}
use mathlib.Core.List.{List}
use clicksync.Base.Tests.{leb, ◌==◌, nat_eq}

abbrev pub Text : Type 0
Text = List ℕ

-- The bytes of an ASCII literal.
abbrev pub text : String → Text
text [] = List.[]
text (c ∷ s) = List.◌∷◌ (code c) (text s)

-- The one-byte characters of `unicode.IsSpace`.
abbrev is_space : ℕ → Bool
is_space c = c == 32 || leb 9 c && leb c 13

-- U+1680, U+2000 to U+200A, U+2028, U+2029, U+202F, U+205F and U+3000.
abbrev is_wide_space : ℕ → ℕ → ℕ → Bool
is_wide_space a b c =
    a == 0xE1 && b == 0x9A && c == 0x80
    || a == 0xE2 && b == 0x80 && (leb 0x80 c && leb c 0x8A || c == 0xA8 || c == 0xA9 || c == 0xAF)
    || a == 0xE2 && b == 0x81 && c == 0x9F
    || a == 0xE3 && b == 0x80 && c == 0x80

-- Every character is white space: the one-byte ones, U+0085 and U+00A0, and the three-byte ones.
unfoldable pub is_blank : Text → Bool
is_blank List.[] = true
is_blank (List.◌∷◌ a List.[]) = is_space a
is_blank (List.◌∷◌ a (List.◌∷◌ b List.[])) =
    is_space a && is_space b || a == 0xC2 && (b == 0x85 || b == 0xA0)
is_blank (List.◌∷◌ a (List.◌∷◌ b (List.◌∷◌ c s))) =
    let one = is_blank (List.◌∷◌ b (List.◌∷◌ c s)) in
    let two = is_blank (List.◌∷◌ c s) in
    let three = is_blank s in
    is_space a && one
    || a == 0xC2 && (b == 0x85 || b == 0xA0) && two
    || is_wide_space a b c && three

is_blank_runs : is_blank (text " ") ≡ true
unfolding is_blank ℕ_discrete
is_blank_runs = refl
