-- ===== src/Examples/Tools.antt =====
-- Witnesses for the reports of errors, the log, the polls of a node, and the program that moves a counter.
use Prim.Native.String.{String}
use tri_ha_rd_higher_resilie.Base.{
  false, Bool, ◌||◌, ◌++◌, leb, length, take, List, ℕ, ◌≡◌, refl, true, arith, [], ◌∷◌, some,
}
use tri_ha_rd_higher_resilie.Base.Int.{ℤ, pos, negsuc, ◌+ℤ◌, neg_ℤ}
use tri_ha_rd_higher_resilie.Base.Text.{atoi, atoi_codes, digits}
use tri_ha_rd_higher_resilie.Timespec.{timespec}
use tri_ha_rd_higher_resilie.Node.{tainted}
use tri_ha_rd_higher_resilie.Errors.{
  SgxError, unexpected, invalid_parameter, out_of_memory, enclave_lost, invalid_enclave,
  invalid_enclave_id, invalid_signature, out_of_epc, no_device, memory_map_conflict,
  invalid_metadata, device_busy, invalid_version, invalid_attribute, enclave_file_access,
  memory_map_failure, enclave_crashed, unexpected_status, unexpected_error, info, error,
  print_node_error, print_aex_error,
}
use tri_ha_rd_higher_resilie.Launcher.Polling.{Round, poll_loop, bench_loop, bench_lat_loop}
use tri_ha_rd_higher_resilie.Launcher.Polling.Rounds.{
  live, stops_in, ended, times, tally, latencies, loops-live,
}
use tri_ha_rd_higher_resilie.Tracing.{timespec_print}
use tri_ha_rd_higher_resilie.Tracing.Read.{value_of, head_caller, Fraction, timespec_print-Fraction}
use tri_ha_rd_higher_resilie.TscOffsetter.{Machine, tsc_msr, returns, main}
use tri_ha_rd_higher_resilie.TscOffsetter.Lead.{run_back}

-- Any numbers serve that differ.
abbrev code : SgxError → ℕ
code unexpected = 1
code invalid_parameter = 2
code out_of_memory = 3
code enclave_lost = 4
code enclave_crashed = 6
code invalid_enclave = 8193
code invalid_enclave_id = 8194
code invalid_signature = 8195
code out_of_epc = 8197
code no_device = 8198
code memory_map_conflict = 8199
code invalid_metadata = 8201
code device_busy = 8204
code invalid_version = 8205
code enclave_file_access = 8207
code invalid_attribute = 8210
code memory_map_failure = 8213

lost_printed :
    (print_node_error code 4
      ≡ info "Please refer to the sample \"PowerTransition\" for details."
        ∷ error "Power transition occurred."
        ∷ [])
    × (print_node_error code 6 ≡ error "The enclave is crashed." ∷ [])
    × (print_aex_error code 6 ≡ unexpected_error ∷ [])
    × (print_node_error code 7 ≡ unexpected_status 7 ∷ [])
unfolding print_node_error print_aex_error
lost_printed = (refl, refl, refl, refl)

abbrev date : ℤ → String
date sec = "01/02/26 03:04:05"

timespec_print-Fraction_example :
    let line =
      timespec_print date
        (timespec (pos 1700000000) (pos 1234567))
        (pos 12345)
        (value_of tainted) in
    (head_caller line.head ≡ some tainted) × Fraction 1234567 line.fraction
timespec_print-Fraction_example =
    timespec_print-Fraction date (pos 1700000000) (pos 12345) 1234567 tainted refl (omega arith)

fraction_text :
    (timespec_print date (timespec (pos 0) (pos 1234567)) (pos 1) (pos 4)).fraction
    ≡ b'0' ∷ b'0' ∷ b'1' ∷ b'2' ∷ b'3' ∷ b'4' ∷ b'5' ∷ b'6' ∷ b'7' ∷ []
unfolding timespec_print
fraction_text = refl

abbrev machine : Machine
machine = record {
  opens_to_read = λ core. true;
  opens_to_write = λ core. true;
  register = λ core msr. some 1000;
}

opposite : atoi "-2" ≡ neg_ℤ (atoi "2")
unfolding atoi atoi_codes digits neg_ℤ
opposite = refl

run_back_example :
    let once = (main 10 machine ("tsc_offsetter" ∷ "3" ∷ "3" ∷ "2" ∷ [])).1 in
    let (e, twice) = main 20 once ("tsc_offsetter" ∷ "3" ∷ "3" ∷ "-2" ∷ []) in
    (e ≡ returns) × (twice.register (atoi "3") tsc_msr ≡ some 1000)
run_back_example =
    run_back 10 20 machine "tsc_offsetter" "3" "2" "-2" 1000 opposite
      (record { opens_read = refl; opens_write = refl; counts = refl; counted = refl })
      (omega arith)

abbrev round : Bool → ℤ → Round
round stop start = record {
  stop = stop;
  ts_node = timespec (pos 1700000000) (pos 5);
  start = start;
  end = start +ℤ pos 40;
  ts_ref = timespec (pos 1700000000) (pos 9);
  ref_start = start;
  ref_end = start +ℤ pos 30;
}

abbrev polls : List Round
polls = round false (pos 100) ∷ round false (pos 200) ∷ round true (pos 300) ∷ []

loops-live_example :
    let at = timespec (pos 1700000001) (pos 0) in
    (poll_loop date (pos 12345) (pos 1) 0 polls
      ≡ ended
          (leb 1 (length (live polls)) || stops_in polls)
          (times date (pos 12345) (take 1 (live polls))))
    × (poll_loop date (pos 12345) (negsuc 0) 0 polls
        ≡ ended (stops_in polls) (times date (pos 12345) (live polls)))
    × (bench_loop date (pos 12345) at 0 polls
        ≡ ended (stops_in polls) (tally date (pos 12345) at (length (live polls))))
    × (bench_lat_loop date (pos 12345) at 0 polls
        ≡ ended (stops_in polls) (
            latencies date (pos 12345) 0 (live polls)
            ++ tally date (pos 12345) at (length (live polls))))
loops-live_example = loops-live date (pos 12345) 1 0 (timespec (pos 1700000001) (pos 0)) polls
