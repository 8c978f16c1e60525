-- ===== src/Examples/Values.antt =====
-- Witnesses for the operators of timespec.h and for the messages.
use tri_ha_rd_higher_resilie.Base.Int.{pos, negsuc, ◌+ℤ◌, ◌-ℤ◌}
use tri_ha_rd_higher_resilie.Timespec.{Timespec, timespec, add, add_nsec, sub, sub_nsec, neg}
use tri_ha_rd_higher_resilie.Timespec.Nanos.{nanos, Holds, operators-Holds}
use tri_ha_rd_higher_resilie.Examples.{noon}

abbrev early : Timespec
early = timespec (pos 3) (negsuc 2500000000)

operators-Holds_example :
    Holds (add early noon) (nanos early +ℤ nanos noon)
    × Holds (sub early noon) (nanos early -ℤ nanos noon)
    × Holds (add_nsec early (negsuc 0)) (nanos early +ℤ negsuc 0)
    × Holds (sub_nsec early (negsuc 0)) (nanos early -ℤ negsuc 0)
    × Holds (neg early) (pos 0 -ℤ nanos early)
operators-Holds_example = operators-Holds early noon (negsuc 0)

abbrev before_epoch : Timespec
before_epoch = timespec (negsuc 0) (pos 999999999)
