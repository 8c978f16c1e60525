-- ===== src/Tracing.antt =====
-- trihard/node/App/ocalls.cpp: the lines of the log that the nodes print outside their enclaves, and that
-- the scripts of trihard/analysis read. The text that `strftime` makes of the seconds is an argument.
pub mod Read
use Prim.Native.String.{String}
use tri_ha_rd_higher_resilie.Base.{
  ℕ, zero, suc, ◌+◌, ◌-◌, ◌/◌, ◌%◌, List, [], ◌∷◌, ◌++◌, Option, none, some, length, ltb,
  if◌then◌else◌,
}
use tri_ha_rd_higher_resilie.Base.Int.{ℤ, pos, negsuc, eqb_ℤ}
use tri_ha_rd_higher_resilie.Timespec.{Timespec}

-- What stands in the brackets, and before the word Time.
pub data Head : Type 0 where
  source : String → Head
  state_switch : String → Head
  node_time ref_time start_time end_time : Head

-- A line: its head, the port, the date and time of the second, the characters of the fraction, and the
-- cycles, if they are printed.
pub record Line : Type 0 where
  pub head : Head
  pub id : ℤ
  pub seconds : String
  pub fraction : List ℕ
  pub cycles : Option ℤ

-- The decimal digits of a number below 10^fuel.
unfoldable pub decimal : ℕ → ℕ → List ℕ → List ℕ
decimal zero n acc = acc
decimal (suc fuel) n acc =
    let more = decimal fuel (n / 10) ((b'0' + n % 10) ∷ acc) in
    if ltb n 10 then (b'0' + n) ∷ acc else more

unfoldable pub zeros : ℕ → List ℕ → List ℕ
zeros zero l = l
zeros (suc n) l = b'0' ∷ zeros n l

-- A `long` has at most 19 digits.
abbrev pub long_digits : ℕ
long_digits = 19

-- The conversion of a `long` by %0<width>ld: a minus sign counts in the width.
unfoldable pub padded : ℕ → ℤ → List ℕ
unfolding decimal zeros
padded width (pos n) = let l = decimal long_digits n [] in zeros (width - length l) l
padded width (negsuc n) =
    let l = decimal long_digits (suc n) [] in b'-' ∷ zeros (width - 1 - length l) l

-- The values of `callers`.
abbrev name_of : ℤ → Head
name_of caller =
    if eqb_ℤ caller (pos 0)
    then source "Handler"
    else if eqb_ℤ caller (pos 1)
    then source "ENode"
    else if eqb_ℤ caller (pos 2)
    then source "TA"
    else if eqb_ℤ caller (pos 3)
    then state_switch "OK"
    else if eqb_ℤ caller (pos 4)
    then state_switch "Tainted"
    else if eqb_ℤ caller (pos 5)
    then state_switch "RefCalib"
    else if eqb_ℤ caller (pos 6)
    then state_switch "FullCalib"
    else if eqb_ℤ caller (pos 7)
    then state_switch "TAInconsistent"
    else if eqb_ℤ caller (pos 8)
    then state_switch "TAConsistent"
    else if eqb_ℤ caller (pos 10)
    then state_switch "Freq"
    else if eqb_ℤ caller (pos 11)
    then state_switch "Spike"
    else if eqb_ℤ caller (pos 12)
    then state_switch "Sync"
    else if eqb_ℤ caller (pos 100)
    then source "INFO"
    else source "Unknown"

unfoldable pub timespec_print : (ℤ → String) → Timespec → ℤ → ℤ → Line
unfolding padded
timespec_print date ts id caller = record {
  head = name_of caller;
  id = id;
  seconds = date ts.tv_sec;
  fraction = padded 9 ts.tv_nsec;
  cycles = none;
}

abbrev cycles_head : ℤ → Head
cycles_head caller =
    if eqb_ℤ caller (pos 200)
    then node_time
    else if eqb_ℤ caller (pos 201)
    then ref_time
    else source "Unknown"

-- An unknown caller's line has no cycles.
abbrev cycles_shown : ℤ → ℤ → Option ℤ
cycles_shown caller cycles =
    if eqb_ℤ caller (pos 200)
    then some cycles
    else if eqb_ℤ caller (pos 201)
    then some cycles
    else none

unfoldable pub timespec_cycles_print : (ℤ → String) → Timespec → ℤ → ℤ → ℤ → Line
unfolding padded
timespec_cycles_print date ts id caller cycles = record {
  head = cycles_head caller;
  id = id;
  seconds = date ts.tv_sec;
  fraction = padded 9 ts.tv_nsec;
  cycles = cycles_shown caller cycles;
}
