-- ===== src/Examples/Users.antt =====
-- Witnesses and tests for the program that runs the nodes of a host.
use Prim.Native.String.{String}
use tri_ha_rd_higher_resilie.Base.{some, ◌≡◌, refl, arith, true, List, [], ◌∷◌}
use tri_ha_rd_higher_resilie.Base.Int.{pos, neg_ℤ}
use tri_ha_rd_higher_resilie.Base.Text.{atoi}
use tri_ha_rd_higher_resilie.Double.Exact.{exact, Ratio, ratio}
use tri_ha_rd_higher_resilie.User.{Config, Build, polling, parse, run}
use tri_ha_rd_higher_resilie.User.Arguments.{Reads, parse-Reads}
use tri_ha_rd_higher_resilie.User.Process.{perform_all}
use tri_ha_rd_higher_resilie.User.Process.Balance.{count_starts, count_joins}
use tri_ha_rd_higher_resilie.User.Process.Ends.{run-Ends}

atoi_runs : atoi " -12a" ≡ neg_ℤ (pos 12)
unfolding atoi neg_ℤ
atoi_runs = refl

abbrev argv : List String
argv =
    "main"
    ∷ ("12345" ∷ ("2" ∷ ("2899" ∷ ("0" ∷ ("0" ∷ ("3" ∷ ("5" ∷ ("10.0.0.2" ∷ ("12346" ∷ [])))))))))

-- `atof` on integers.
abbrev atof : String → Ratio
atof s = ratio (atoi s) 1

parse-Reads_example : Reads exact atof argv (parse exact atof argv)
parse-Reads_example = parse-Reads exact atof argv

abbrev config : Config exact
config = record {
  port = 12345;
  core_rd_tsc = pos 2;
  tsc_freq = ratio (pos 3) 1;
  freq_offset = ratio (pos 0) 1;
  sleep_attack_ms = pos 0;
  n_nodes = pos 3;
  exp_time = ratio (pos 5) 1;
  siblings = ("10.0.0.2", 12346) ∷ [];
}

abbrev build : Build
build = record { single_host = true; measure = polling }

run-Ends_example :
    let (nodes, actions) = perform_all {F = exact} (λ port. some port) (run build config) [] in
    (nodes ≡ []) × (count_starts (λ t. true) actions ≡ count_joins (λ t. true) actions)
run-Ends_example = run-Ends (λ port. some port) build config (λ t. true) (omega arith)
