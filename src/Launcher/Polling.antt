-- ===== src/Launcher/Polling.antt =====
-- trihard/node/App/Node.cpp: what poll_timestamp and the two benchmarks of a node print. A round of a loop is
-- what it reads; the list of the rounds goes on past the end of the loop.
pub mod Rounds
use Prim.Native.String.{String}
use tri_ha_rd_higher_resilie.Base.{
  ℕ, suc, Bool, ◌&&◌, ◌||◌, not, List, [], ◌∷◌, ◌++◌, Option, none, some, map, if◌then◌else◌,
}
use tri_ha_rd_higher_resilie.Base.Int.{ℤ, pos, ◌-ℤ◌, ltb_ℤ}
use tri_ha_rd_higher_resilie.Timespec.{Timespec}
use tri_ha_rd_higher_resilie.Tracing.{Head, Line, node_time, ref_time, start_time, end_time, padded}

-- The flag as the loop's test finds it, the timestamp of the enclave and of the OS, and the counter
-- before and after each.
pub record Round : Type 0 where
  pub stop : Bool
  pub ts_node : Timespec
  pub start : ℤ
  pub end : ℤ
  pub ts_ref : Timespec
  pub ref_start : ℤ
  pub ref_end : ℤ

-- What a program prints: a time; the cycles of one timestamp with its number; the number of timestamps.
pub data Output : Type 0 where
  time : Line → Output
  latency : ℕ → ℤ → ℤ → ℤ → Output
  polled : ℕ → Output

-- `count<0 || i<count`.
unfoldable pub goes_on : ℤ → ℕ → Bool
goes_on count i = ltb_ℤ count (pos 0) || ltb_ℤ (pos i) count

module _ (date : ℤ → String) (port : ℤ) where
  abbrev pub time_of : Head → Timespec → Option ℤ → Output
  time_of head ts cycles = time record {
    head = head;
    id = port;
    seconds = date ts.tv_sec;
    fraction = padded 9 ts.tv_nsec;
    cycles = cycles;
  }

  -- One round: the time of the OS, and the time of the node.
  abbrev pub times_of : Round → List Output
  times_of r =
      time_of ref_time r.ts_ref (some (r.ref_end -ℤ r.ref_start))
      ∷ time_of node_time r.ts_node (some (r.end -ℤ r.start))
      ∷ []

  abbrev after : List Output → Option (List Output) → Option (List Output)
  after printed none = none
  after printed (some more) = some (printed ++ more)

  -- The loop of `poll_timestamp`, from its round `i`: `none` if the rounds end before it does.
  unfoldable pub poll_loop : ℤ → ℕ → List Round → Option (List Output)
  unfolding goes_on
  poll_loop count i [] = if goes_on count i then none else some []
  poll_loop count i (r ∷ rounds) =
      let rest = poll_loop count (suc i) rounds in
      if goes_on count i && not r.stop then after (times_of r) rest else some []

  -- The thread of `bench_timestamp`, from its round `i`.
  unfoldable pub bench_loop : Timespec → ℕ → List Round → Option (List Output)
  bench_loop ts_end_ref i [] = none
  bench_loop ts_end_ref i (r ∷ rounds) =
      let rest = bench_loop ts_end_ref (suc i) rounds in
      if not r.stop then rest else some (polled i ∷ time_of end_time ts_end_ref none ∷ [])

  -- The thread of `bench_lat_timestamp`.
  unfoldable pub bench_lat_loop : Timespec → ℕ → List Round → Option (List Output)
  bench_lat_loop ts_end_ref i [] = none
  bench_lat_loop ts_end_ref i (r ∷ rounds) =
      let rest = bench_lat_loop ts_end_ref (suc i) rounds in
      if not r.stop
      then after (latency i r.start r.end (r.end -ℤ r.start) ∷ []) rest
      else some (polled i ∷ time_of end_time ts_end_ref none ∷ [])

  -- `bench_timestamp` and `bench_lat_timestamp` before their thread: one poll, and the time.
  unfoldable pub bench_start : Timespec → List Round → Option (List Output)
  unfolding poll_loop
  bench_start ts_ref rounds = elim (poll_loop (pos 1) 0 rounds) [
    | none ↦ none
    | some printed ↦ some (printed ++ (time_of start_time ts_ref none ∷ []))
  ]

  -- `print_timestamp`: nothing is printed of a node that stops.
  unfoldable pub print_timestamp : Bool → Timespec → Timespec → List Output
  print_timestamp stop ts_node ts_ref =
      if not stop then time_of ref_time ts_ref none ∷ time_of node_time ts_node none ∷ [] else []
