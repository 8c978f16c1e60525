-- ===== src/Node/Ntp/Offset.antt =====
-- How close the computed offset is to the offset of the clocks.
use tri_ha_rd_higher_resilie.Base.{
  ℕ, ◌+◌, ◌-◌, ◌*◌, ◌/◌, ◌^◌, ◌<◌, ◌≡◌, refl, sym, subst, ap, ap₂, arith,
}
use tri_ha_rd_higher_resilie.Base.Int.{
  ℤ, pos, negsuc, pos_part, neg_part, neg_ℤ, tdiv, trem, ◌+ℤ◌, ◌-ℤ◌, ◌*ℤ◌, ◌≤ℤ◌, int_laws,
}
use tri_ha_rd_higher_resilie.Double.{Double}
use tri_ha_rd_higher_resilie.Timespec.{Timespec, timespec, nsec_per_sec, standardize, add, sub}
use tri_ha_rd_higher_resilie.Timespec.Nanos.{
  nanos, nanos_laws, IsStandard, operators-Holds, nanos-standardize,
}
use tri_ha_rd_higher_resilie.Timespec.Scale.{div}
use tri_ha_rd_higher_resilie.Wire.Codec.{IsI64}
use tri_ha_rd_higher_resilie.Node.Ntp.{half_offset}

-- A double holds the integer, the half of it, and a sum of them, without rounding.
abbrev pub IsExact : ℤ → Type 0
IsExact z = (z ≤ℤ pos (2 ^ 53)) × (negsuc (2 ^ 53 - 1) ≤ℤ z)

-- What IEEE 754 gives for a division by 2 of an integer that the 53 bits of the significand hold: the
-- quotient is exact, so the conversion truncates it; and so are the fraction that is left, 0 or a half, its
-- product with 10 ^ 9, and the sum of that with the nanoseconds of less than a second.
pub record Halves (F : Double) : Type 0 where
  pub halved : (z : ℤ) → IsExact z → F.trunc (F.over (F.of_ℤ z) (F.of_ℤ (pos 2))) ≡ tdiv z 2
  pub rest :
      (z : ℤ) (n : ℕ)
      → IsExact z
      → n < nsec_per_sec
      → let seconds = F.over (F.of_ℤ z) (F.of_ℤ (pos 2)) in
        F.trunc (
          F.plus
            (F.times (F.minus seconds (F.of_ℤ (F.trunc seconds))) (F.of_ℤ (pos nsec_per_sec)))
            (F.of_ℤ (pos n)))
        ≡ trem z 2 *ℤ pos 500000000 +ℤ pos n

pub halved_parts :
    (s : ℤ)
    → pos_part (tdiv s 2) * 2 + pos_part (trem s 2) + neg_part s
      ≡ neg_part (tdiv s 2) * 2 + neg_part (trem s 2) + pos_part s
unfolding tdiv trem neg_ℤ
halved_parts (pos s) = ground arith
halved_parts (negsuc s) = ground arith

pub half_billion_parts :
    (a : ℤ)
    → pos_part (a *ℤ pos 500000000) + neg_part a * 500000000
      ≡ neg_part (a *ℤ pos 500000000) + pos_part a * 500000000
unfolding ◌*ℤ◌
half_billion_parts a = ground arith

-- Twice the half is at most the value, and at least one less.
abbrev IsHalf : ℤ → ℤ → Type 0
IsHalf h z = (h +ℤ h ≤ℤ z) × (z ≤ℤ h +ℤ h +ℤ pos 1)

IsHalf-nanos :
    (s : ℤ) (n : ℕ)
    → IsHalf
        (nanos (timespec (tdiv s 2) (trem s 2 *ℤ pos 500000000 +ℤ pos (n / 2))))
        (nanos (timespec s (pos n)))
IsHalf-nanos s n = omega (nanos_laws, halved_parts s, half_billion_parts (trem s 2))

module _ {F : Double} (halves : Halves F) where
  div_fields :
      (s : ℤ) (n : ℕ)
      → IsExact s
      → n < nsec_per_sec
      → div F (timespec s (pos n)) (F.of_ℤ (pos 2))
        ≡ standardize (timespec (tdiv s 2) (trem s 2 *ℤ pos 500000000 +ℤ pos (n / 2)))
  unfolding div tdiv
  div_fields s n hs hn =
      let nsec : F.trunc (F.over (F.of_ℤ (pos n)) (F.of_ℤ (pos 2))) ≡ pos (n / 2) =
        halves.halved (pos n) (omega arith) in
      rw nsec (
        ap₂ (λ a b. standardize (timespec a b)) (halves.halved s hs)
          (halves.rest s (n / 2) hs (omega arith)))

  div-IsHalf :
      (s n : ℤ)
      → IsExact s
      → IsStandard (timespec s n)
      → IsHalf (nanos (div F (timespec s n) (F.of_ℤ (pos 2)))) (nanos (timespec s n))
  div-IsHalf s (pos n) hs hn =
      rw (div_fields s n hs (omega arith), nanos-standardize _) (IsHalf-nanos s n)
  div-IsHalf s (negsuc n) hs hn = absurd (omega arith)

  seconds-IsExact : (t : Timespec) → IsStandard t → IsI64 (nanos t) → IsExact t.tv_sec
  seconds-IsExact t standard small = omega nanos_laws

  half_offset-IsHalf :
      (org_ts rec_ts xmt_ts recv_ts : Timespec)
      → let z = nanos rec_ts -ℤ nanos org_ts +ℤ nanos xmt_ts -ℤ nanos recv_ts in
        IsI64 z → IsHalf (nanos (half_offset F org_ts rec_ts xmt_ts recv_ts)) z
  unfolding half_offset
  half_offset-IsHalf org_ts rec_ts xmt_ts recv_ts small =
      let t1 = sub rec_ts org_ts in
      let t2 = add t1 xmt_ts in
      let t = sub t2 recv_ts in
      let (e1, _) = (operators-Holds rec_ts org_ts (pos 0)).1 in
      let (e2, _) = (operators-Holds t1 xmt_ts (pos 0)).0 in
      let (e3, standard) = (operators-Holds t2 recv_ts (pos 0)).1 in
      let e : nanos t ≡ nanos rec_ts -ℤ nanos org_ts +ℤ nanos xmt_ts -ℤ nanos recv_ts =
        rw (e3, e2, e1) refl in
      subst (λ z. IsHalf (nanos (div F t (F.of_ℤ (pos 2)))) z) e
        (div-IsHalf t.tv_sec t.tv_nsec (seconds-IsExact t standard (subst IsI64 (sym e) small))
          standard)

  -- With clocks that differ by `offset`, a message that takes `there` to the time authority and an
  -- answer that takes `back`, the computed offset is off by at most half of their sum and half a
  -- nanosecond, whatever the times on the way; doubles are taken to be exact on the integers met.
  pub half_offset_accuracy :
      (org_ts rec_ts xmt_ts recv_ts : Timespec) (offset : ℤ) (there back : ℕ)
      → nanos rec_ts ≡ nanos org_ts +ℤ pos there +ℤ offset
      → nanos recv_ts ≡ nanos xmt_ts +ℤ pos back -ℤ offset
      → IsI64 (offset +ℤ offset +ℤ pos there -ℤ pos back)
      → let h = nanos (half_offset F org_ts rec_ts xmt_ts recv_ts) in
        (h +ℤ h ≤ℤ offset +ℤ offset +ℤ pos there)
        × (offset +ℤ offset ≤ℤ h +ℤ h +ℤ pos back +ℤ pos 1)
  half_offset_accuracy org_ts rec_ts xmt_ts recv_ts offset there back went came small =
      let z = nanos rec_ts -ℤ nanos org_ts +ℤ nanos xmt_ts -ℤ nanos recv_ts in
      let e : z ≡ offset +ℤ offset +ℤ pos there -ℤ pos back = rw (went, came) (omega int_laws) in
      let half = half_offset-IsHalf org_ts rec_ts xmt_ts recv_ts (subst IsI64 (sym e) small) in
      omega (int_laws, half, ap pos_part e, ap neg_part e)
