-- ===== src/Examples/Offsets.antt =====
-- Halves of fractions, as the exact doubles compute them.
use tri_ha_rd_higher_resilie.Base.{◌+◌, ◌*◌, ◌≡◌, refl, ap, ◌∙◌, arith}
use tri_ha_rd_higher_resilie.Base.Int.{
  ℤ, pos, negsuc, pos_part, neg_part, neg_ℤ, tdiv, trem, ◌+ℤ◌, ◌-ℤ◌, ◌*ℤ◌, int_laws,
}
use tri_ha_rd_higher_resilie.Double.Exact.{exact, ratio, trunc, over, plus, minus, times}
use tri_ha_rd_higher_resilie.Node.Ntp.Offset.{Halves, halved_parts, half_billion_parts}

trunc-ratio : (x : ℤ) → trunc (ratio x 2) ≡ tdiv x 2
unfolding trunc tdiv
trunc-ratio (pos n) = refl
trunc-ratio (negsuc n) = refl

one_times : (z : ℤ) → z *ℤ pos 1 ≡ z
unfolding ◌*ℤ◌
one_times z = ground arith

two_parts :
    (a : ℤ) → pos_part (a *ℤ pos 2) + neg_part a * 2 ≡ neg_part (a *ℤ pos 2) + pos_part a * 2
unfolding ◌*ℤ◌
two_parts a = ground arith

billion_parts :
    (a : ℤ)
    → pos_part (a *ℤ pos 1000000000) + neg_part a * 1000000000
      ≡ neg_part (a *ℤ pos 1000000000) + pos_part a * 1000000000
unfolding ◌*ℤ◌
billion_parts a = ground arith

tdiv_twice : (y : ℤ) → tdiv (y +ℤ y) 2 ≡ y
unfolding tdiv ◌+ℤ◌ neg_ℤ
tdiv_twice (pos n) = ground arith
tdiv_twice (negsuc n) = ground arith

halved : (z : ℤ) → trunc (over (ratio z 1) (ratio (pos 2) 1)) ≡ tdiv z 2
unfolding over
halved z = rw (one_times z) (trunc-ratio z)

rest_num :
    (z n : ℤ)
    → (z -ℤ tdiv z 2 *ℤ pos 2) *ℤ pos 1000000000 +ℤ n *ℤ pos 2
      ≡ (trem z 2 *ℤ pos 500000000 +ℤ n) +ℤ (trem z 2 *ℤ pos 500000000 +ℤ n)
rest_num z n = omega (
  int_laws,
  two_parts n,
  two_parts (tdiv z 2),
  billion_parts (z -ℤ tdiv z 2 *ℤ pos 2),
  halved_parts z,
  half_billion_parts (trem z 2),
)

rest :
    (z n : ℤ)
    → let seconds = over (ratio z 1) (ratio (pos 2) 1) in
      trunc (
        plus
          (times (minus seconds (ratio (trunc seconds) 1)) (ratio (pos 1000000000) 1))
          (ratio n 1))
      ≡ trem z 2 *ℤ pos 500000000 +ℤ n
unfolding over plus times minus
rest z n =
    let excess = (z -ℤ tdiv z 2 *ℤ pos 2) *ℤ pos 1000000000 in
    rw (one_times z, trunc-ratio z, one_times z, one_times excess)
      (trunc-ratio (excess +ℤ n *ℤ pos 2)
        ∙ ap (λ x. tdiv x 2) (rest_num z n)
        ∙ tdiv_twice (trem z 2 *ℤ pos 500000000 +ℤ n))

pub halves : Halves exact
halves = record { halved = λ z h. halved z; rest = λ z n h k. rest z (pos n) }
