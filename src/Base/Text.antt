-- ===== src/Base/Text.antt =====
-- The C library's `atoi` on the characters of a text.
use Prim.Native.Char.{code}
use Prim.Native.String.{String}
use tri_ha_rd_higher_resilie.Base.{
  ℕ, ◌+◌, ◌-◌, ◌*◌, Bool, ◌&&◌, ◌||◌, List, [], ◌∷◌, ◌==◌, leb, if◌then◌else◌,
}
use tri_ha_rd_higher_resilie.Base.Int.{ℤ, pos, neg_ℤ}

abbrev pub codes : String → List ℕ
codes String.[] = []
codes (String.◌∷◌ c s) = code c ∷ codes s

abbrev is_space : ℕ → Bool
is_space c = c == 32 || leb 9 c && leb c 13

abbrev is_digit : ℕ → Bool
is_digit c = leb b'0' c && leb c b'9'

-- The digits up to the first other character.
unfoldable pub digits : ℕ → List ℕ → ℕ
digits n [] = n
digits n (c ∷ cs) = let more = digits (10 * n + (c - b'0')) cs in if is_digit c then more else n

abbrev signed : List ℕ → ℤ
signed [] = pos 0
signed (c ∷ cs) =
    if c == b'-'
    then neg_ℤ (pos (digits 0 cs))
    else if c == b'+'
    then pos (digits 0 cs)
    else pos (digits 0 (c ∷ cs))

unfoldable pub atoi_codes : List ℕ → ℤ
unfolding digits neg_ℤ
atoi_codes [] = signed []
atoi_codes (c ∷ cs) = let more = atoi_codes cs in if is_space c then more else signed (c ∷ cs)

unfoldable pub atoi : String → ℤ
unfolding atoi_codes
atoi s = atoi_codes (codes s)
