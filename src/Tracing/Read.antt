-- ===== src/Tracing/Read.antt =====
-- ocalls.cpp: what can be read back of a line of the log.
use Prim.Native.String.{String}
use text.Mathlib.Text.{◌==◌ as str_eq}
use tri_ha_rd_higher_resilie.Base.{
  ℕ, zero, suc, leb, ◌+◌, ◌-◌, ◌*◌, ◌/◌, ◌%◌, ◌^◌, ◌≤◌, ◌<◌, ◌≡◌, refl, ap, ◌∙◌, Bool, true, false,
  inl, inr, List, [], ◌∷◌, Option, none, some, length, ltb, if◌then◌else◌, Bool-cases, arith,
}
use tri_ha_rd_higher_resilie.Base.Int.{ℤ, pos}
use tri_ha_rd_higher_resilie.Base.Text.{digits}
use tri_ha_rd_higher_resilie.Timespec.{Timespec, timespec}
use tri_ha_rd_higher_resilie.Node.{
  Caller, handler, enode, ta, ok, tainted, ref_calib, full_calib, ta_inconsistent, ta_consistent,
  freq, spik, sync, info, enode_ts, ref_ts,
}
use tri_ha_rd_higher_resilie.Tracing.{
  Head, source, state_switch, decimal, zeros, padded, long_digits, timespec_print,
}

-- `callers_t` of ENode.h.
abbrev pub value_of : Caller → ℤ
value_of handler = pos 0
value_of enode = pos 1
value_of ta = pos 2
value_of ok = pos 3
value_of tainted = pos 4
value_of ref_calib = pos 5
value_of full_calib = pos 6
value_of ta_inconsistent = pos 7
value_of ta_consistent = pos 8
value_of freq = pos 10
value_of spik = pos 11
value_of sync = pos 12
value_of info = pos 100
value_of enode_ts = pos 200
value_of ref_ts = pos 201

digits-digit :
    (k d m : ℕ) (cs : List ℕ) → d < 10 → m ≡ 10 * k + d → digits k ((b'0' + d) ∷ cs) ≡ digits m cs
unfolding digits
digits-digit k d m cs h e =
    let low : leb b'0' (b'0' + d) ≡ true = ground arith in
    let high : leb (b'0' + d) b'9' ≡ true = ground arith in
    rw (low, high) (ap (λ x. digits x cs) (omega arith))

pow_suc : (n : ℕ) → 10 ^ suc n ≡ 10 * 10 ^ n
pow_suc n = omega arith

digits-decimal :
    (fuel n : ℕ) (acc : List ℕ) → n < 10 ^ fuel → digits 0 (decimal fuel n acc) ≡ digits n acc
unfolding decimal
digits-decimal zero n acc h = ap (λ k. digits k acc) (omega arith)
digits-decimal (suc fuel) n acc h = elim (Bool-cases (ltb n 10)) [
  | inl last ↦ rw last (digits-digit 0 n n acc (ground arith) (omega arith))
  | inr more ↦ rw more (
      digits-decimal fuel (n / 10) ((b'0' + n % 10) ∷ acc) (omega (arith, pow_suc fuel))
      ∙ digits-digit (n / 10) (n % 10) n acc (omega arith) (omega arith))
]

digits-zeros : (k : ℕ) (l : List ℕ) → digits 0 (zeros k l) ≡ digits 0 l
unfolding zeros
digits-zeros zero l = refl
digits-zeros (suc k) l =
    digits-digit 0 0 0 (zeros k l) (omega arith) (omega arith) ∙ digits-zeros k l

length-zeros : (k : ℕ) (l : List ℕ) → length (zeros k l) ≡ k + length l
unfolding zeros
length-zeros zero l = omega arith
length-zeros (suc k) l = omega (arith, length-zeros k l)

one_digit : (n : ℕ) → n < 10 ^ 1 → ltb n 10 ≡ true
one_digit n h = ground arith

length-decimal :
    (fuel k n : ℕ) (acc : List ℕ)
    → n < 10 ^ suc k
    → length (decimal fuel n acc) ≤ suc k + length acc
unfolding decimal
length-decimal zero k n acc h = omega arith
length-decimal (suc fuel) zero n acc h = rw (one_digit n h) (omega arith)
length-decimal (suc fuel) (suc k) n acc h = elim (Bool-cases (ltb n 10)) [
  | inl last ↦ rw last (omega arith)
  | inr more ↦
      let shorter =
        length-decimal fuel k (n / 10) ((b'0' + n % 10) ∷ acc) (omega (arith, pow_suc (suc k))) in
      rw more (omega (arith, shorter))
]

-- The 9 digits of a standard fraction read back as the fraction.
pub record Fraction (n : ℕ) (text : List ℕ) : Type 0 where
  pub read : digits 0 text ≡ n
  pub width : length text ≡ 9

padded-Fraction : (n : ℕ) → n < 1000000000 → Fraction n (padded 9 (pos n))
unfolding padded digits
padded-Fraction n h =
    let text = decimal long_digits n [] in
    let short = length-decimal long_digits 8 n [] (omega arith) in
    record {
      read = digits-zeros (9 - length text) text ∙ digits-decimal long_digits n [] (omega arith);
      width = omega (arith, short, length-zeros (9 - length text) text);
    }

-- What the words in a line's head say: the caller of `ocall_timespec_print`.
source_caller : String → Option Caller
source_caller s =
    if str_eq s "Handler"
    then some handler
    else if str_eq s "ENode"
    then some enode
    else if str_eq s "TA"
    then some ta
    else if str_eq s "INFO"
    then some info
    else none

state_caller : String → Option Caller
state_caller s =
    if str_eq s "OK"
    then some ok
    else if str_eq s "Tainted"
    then some tainted
    else if str_eq s "RefCalib"
    then some ref_calib
    else if str_eq s "FullCalib"
    then some full_calib
    else if str_eq s "TAInconsistent"
    then some ta_inconsistent
    else if str_eq s "TAConsistent"
    then some ta_consistent
    else if str_eq s "Freq"
    then some freq
    else if str_eq s "Spike"
    then some spik
    else if str_eq s "Sync"
    then some sync
    else none

abbrev pub head_caller : Head → Option Caller
unfolding source_caller state_caller
head_caller (source s) = source_caller s
head_caller (state_switch s) = state_caller s
head_caller _ = none

-- The callers that print cycles go through the other call.
abbrev pub has_cycles : Caller → Bool
has_cycles enode_ts = true
has_cycles ref_ts = true
has_cycles _ = false

read_caller :
    (c : Caller)
    → has_cycles c ≡ false
    → (date : ℤ → String) (ts : Timespec) (id : ℤ)
    → head_caller (timespec_print date ts id (value_of c)).head ≡ some c
unfolding timespec_print source_caller state_caller
read_caller handler h date ts id = refl
read_caller enode h date ts id = refl
read_caller ta h date ts id = refl
read_caller ok h date ts id = refl
read_caller tainted h date ts id = refl
read_caller ref_calib h date ts id = refl
read_caller full_calib h date ts id = refl
read_caller ta_inconsistent h date ts id = refl
read_caller ta_consistent h date ts id = refl
read_caller freq h date ts id = refl
read_caller spik h date ts id = refl
read_caller sync h date ts id = refl
read_caller info h date ts id = refl
read_caller enode_ts h date ts id = absurd (ground arith)
read_caller ref_ts h date ts id = absurd (ground arith)

-- The line that `ocall_timespec_print` prints for any of its callers tells which of them it was, whatever
-- text the date has; and where the fraction of the second is standard, it has exactly nine digits, which
-- read back as the nanoseconds.
pub timespec_print-Fraction :
    (date : ℤ → String) (sec id : ℤ) (n : ℕ) (c : Caller)
    → has_cycles c ≡ false
    → n < 1000000000
    → let line = timespec_print date (timespec sec (pos n)) id (value_of c) in
      (head_caller line.head ≡ some c) × Fraction n line.fraction
unfolding timespec_print
timespec_print-Fraction date sec id n c h small =
    (read_caller c h date (timespec sec (pos n)) id, padded-Fraction n small)
