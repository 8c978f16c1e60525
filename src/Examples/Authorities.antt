-- ===== src/Examples/Authorities.antt =====
-- Witnesses for the time authority.
use tri_ha_rd_higher_resilie.Base.{ℕ, ◌≡◌, refl, arith, List, [], ◌∷◌}
use tri_ha_rd_higher_resilie.Base.Int.{pos, negsuc}
use tri_ha_rd_higher_resilie.Wire.{drift_message}
use tri_ha_rd_higher_resilie.Authority.{Readings, handle_msg}
use tri_ha_rd_higher_resilie.Authority.Answers.{Answers, Carries, handle_msg-Answers}
use tri_ha_rd_higher_resilie.Base.Int.{◌+ℤ◌, ◌-ℤ◌, ◌*ℤ◌}
use tri_ha_rd_higher_resilie.Double.Exact.{exact, trunc, over}
use tri_ha_rd_higher_resilie.Timespec.{timespec, add_nsec, standardize}
use tri_ha_rd_higher_resilie.Timespec.Nanos.{nanos}
use tri_ha_rd_higher_resilie.Node.{ENode, ta_ip, ta_port}
use tri_ha_rd_higher_resilie.Node.Clock.{read_clock}
use tri_ha_rd_higher_resilie.Node.Messages.{Inputs, handle_message}
use tri_ha_rd_higher_resilie.Node.Ntp.{send_recv_drift_message}
use tri_ha_rd_higher_resilie.Authority.Training.{IsNear, training_accuracy}
use tri_ha_rd_higher_resilie.Examples.Offsets.{halves}
use tri_ha_rd_higher_resilie.Examples.{noon, epoch, fresh}
use tri_ha_rd_higher_resilie.Examples.Sockets.{marking}

abbrev readings : Readings
readings = record { rec_ts = noon; xmt_ts = noon }

abbrev zero_bytes : List ℕ
zero_bytes = 0 ∷ []

handle_msg-Answers_example :
    (m : List ℕ) × Answers (7 ∷ m) (
      handle_msg marking zero_bytes zero_bytes
        (pos 20)
        readings
        zero_bytes
        (7 ∷ drift_message (pos 3) (negsuc 4) noon epoch))
    × Carries m (pos 3) noon readings
handle_msg-Answers_example =
    handle_msg-Answers marking zero_bytes zero_bytes (pos 20) readings zero_bytes (pos 3) (negsuc 4)
      noon epoch (λ key nonce p. refl) (omega arith) (omega arith) (omega arith) (omega arith)
      (omega arith)

-- The node is 0.4 s behind; the request takes 30 us and the answer 5 us.
abbrev inputs : Inputs
inputs = record { now = noon; xmt_tsc = pos 6000 }

abbrev asker : ENode exact
asker = record fresh { tsc = pos 45000 }

abbrev ahead : Readings
ahead = record {
  rec_ts = timespec (pos 1700000001) (pos 400033000);
  xmt_ts = timespec (pos 1700000001) (pos 400038000);
}

asked_at : (read_clock fresh).1 ≡ timespec (pos 1700000001) (pos 3000)
unfolding read_clock add_nsec standardize ◌+ℤ◌ trunc over ◌*ℤ◌ ◌-ℤ◌
asked_at = refl

received_at : (read_clock asker).1 ≡ timespec (pos 1700000001) (pos 43000)
unfolding read_clock add_nsec standardize ◌+ℤ◌ trunc over ◌*ℤ◌ ◌-ℤ◌
received_at = refl

went : nanos ahead.rec_ts ≡ nanos (read_clock fresh).1 +ℤ pos 30000 +ℤ pos 400000000
unfolding nanos ◌+ℤ◌ ◌*ℤ◌
went = rw asked_at refl

came : nanos (read_clock asker).1 ≡ nanos ahead.xmt_ts +ℤ pos 5000 -ℤ pos 400000000
unfolding nanos ◌+ℤ◌ ◌-ℤ◌ ◌*ℤ◌
came = rw received_at refl

training_accuracy_example :
    let request = (send_recv_drift_message noon epoch (pos 0) (pos 0) fresh).1.payload in
    (m : List ℕ) × Answers
      (7 ∷ m)
      (handle_msg marking zero_bytes zero_bytes (pos 20) ahead zero_bytes (7 ∷ request))
    × (let after = (handle_message inputs ta_ip ta_port m asker).0 in
        (after.tsc_ref ≡ pos 45000 +ℤ pos 0)
        × IsNear after.ts_ref (nanos (read_clock asker).1 +ℤ pos 400000000) 30000 5000)
unfolding ◌+ℤ◌ ◌-ℤ◌
training_accuracy_example =
    training_accuracy marking zero_bytes zero_bytes (pos 20) ahead zero_bytes fresh asker inputs
      noon epoch (pos 0) (pos 0) (pos 400000000) 30000 5000 halves (λ key nonce p. refl) refl
      (omega arith) (omega arith) (rw asked_at (omega arith)) (omega arith) (omega arith) refl refl
      refl went came (omega arith)
