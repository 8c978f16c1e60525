-- ===== src/Launcher/Polling/Rounds.antt =====
-- How long the loops that poll a node run, and what they print.
use Prim.Native.String.{String}
use tri_ha_rd_higher_resilie.Base.{
  ℕ, zero, suc, ◌+◌, ◌≡◌, refl, sym, ap, ◌∙◌, Bool, true, false, ◌||◌, inl, inr, List, [], ◌∷◌,
  ◌++◌, Option, none, some, length, take, leb, if◌then◌else◌, Bool-cases, arith,
}
use tri_ha_rd_higher_resilie.Base.Int.{ℤ, pos, negsuc, ◌-ℤ◌}
use tri_ha_rd_higher_resilie.Timespec.{Timespec}
use tri_ha_rd_higher_resilie.Tracing.{end_time}
use tri_ha_rd_higher_resilie.Launcher.Polling.{
  Round, Output, goes_on, polled, latency, times_of, time_of, after, poll_loop, bench_loop,
  bench_lat_loop,
}

-- The rounds before the first that finds the flag set, and whether there is such a one.
abbrev pub live : List Round → List Round
live [] = []
live (r ∷ rounds) = if r.stop then [] else r ∷ live rounds

abbrev pub stops_in : List Round → Bool
stops_in [] = false
stops_in (r ∷ rounds) = r.stop || stops_in rounds

abbrev pub ended : Bool → List Output → Option (List Output)
ended b printed = if b then some printed else none

goes_on_end : (i : ℕ) → goes_on (pos (i + 0)) i ≡ false
unfolding goes_on
goes_on_end i = ground arith

goes_on_below : (i k : ℕ) → goes_on (pos (i + suc k)) i ≡ true
unfolding goes_on
goes_on_below i k = ground arith

goes_on_always : (i c : ℕ) → goes_on (negsuc c) i ≡ true
unfolding goes_on
goes_on_always i c = ground arith

zero_or : (n : ℕ) (b : Bool) → (leb 0 n || b) ≡ true
zero_or n b = ground arith

leb_none : (k : ℕ) → leb (suc k) 0 ≡ false
leb_none k = ground arith

leb-suc : (k n : ℕ) → leb k n ≡ leb (suc k) (suc n)
leb-suc k n = ground arith

module _ (date : ℤ → String) (port : ℤ) where
  abbrev pub times : List Round → List Output
  times [] = []
  times (r ∷ rounds) = times_of date port r ++ times rounds

  after-ended : (b : Bool) (x y : List Output) → after date port x (ended b y) ≡ ended b (x ++ y)
  after-ended true x y = refl
  after-ended false x y = refl

  -- The loop of a count that is `k` above its round.
  poll_loop-from :
      (k i : ℕ) (rounds : List Round)
      → poll_loop date port (pos (i + k)) i rounds
        ≡ ended (leb k (length (live rounds)) || stops_in rounds) (times (take k (live rounds)))
  unfolding poll_loop
  poll_loop-from zero i [] = rw (goes_on_end i) refl
  poll_loop-from zero i (r ∷ rounds) =
      rw (goes_on_end i)
        (sym (ap (λ b. ended b []) (zero_or (length (live (r ∷ rounds))) (stops_in (r ∷ rounds)))))
  poll_loop-from (suc k) i [] =
      rw (goes_on_below i k) (sym (ap (λ b. ended (b || false) []) (leb_none k)))
  poll_loop-from (suc k) i (r ∷ rounds) =
      let more = leb (suc k) (length (live (r ∷ rounds))) in
      elim (Bool-cases r.stop) [
        | inl stopped ↦
            rw (goes_on_below i k, stopped) (sym (ap (λ b. ended (b || true) []) (leb_none k)))
        | inr goes ↦
            rw (goes_on_below i k, goes)
              (ap (after date port (times_of date port r)) (
                  ap (λ c. poll_loop date port (pos c) (suc i) rounds) (omega arith)
                  ∙ poll_loop-from k (suc i) rounds)
                ∙ after-ended (leb k (length (live rounds)) || stops_in rounds)
                    (times_of date port r) (times (take k (live rounds)))
                ∙ ap
                    (λ b.
                      ended (b || stops_in rounds)
                        (times_of date port r ++ times (take k (live rounds))))
                    (leb-suc k (length (live rounds))))
      ]

  -- The loop of a negative count.
  poll_loop-live :
      (c i : ℕ) (rounds : List Round)
      → poll_loop date port (negsuc c) i rounds ≡ ended (stops_in rounds) (times (live rounds))
  unfolding poll_loop
  poll_loop-live c i [] = rw (goes_on_always i c) refl
  poll_loop-live c i (r ∷ rounds) = elim (Bool-cases r.stop) [
    | inl stopped ↦ rw (goes_on_always i c, stopped) refl
    | inr goes ↦
        rw (goes_on_always i c, goes)
          (ap (after date port (times_of date port r)) (poll_loop-live c (suc i) rounds)
            ∙ after-ended (stops_in rounds) (times_of date port r) (times (live rounds)))
  ]

  -- The end of a benchmark that has read `n` timestamps.
  abbrev pub tally : Timespec → ℕ → List Output
  tally ts_end_ref n = polled n ∷ time_of date port end_time ts_end_ref none ∷ []

  bench_loop-live :
      (ts_end_ref : Timespec) (i : ℕ) (rounds : List Round)
      → bench_loop date port ts_end_ref i rounds
        ≡ ended (stops_in rounds) (tally ts_end_ref (i + length (live rounds)))
  unfolding bench_loop
  bench_loop-live ts_end_ref i [] = refl
  bench_loop-live ts_end_ref i (r ∷ rounds) = elim (Bool-cases r.stop) [
    | inl stopped ↦ rw stopped (ap (λ n. some (tally ts_end_ref n)) (omega arith))
    | inr goes ↦ rw goes (
        bench_loop-live ts_end_ref (suc i) rounds
        ∙ ap (λ n. ended (stops_in rounds) (tally ts_end_ref n)) (omega arith))
  ]

  abbrev pub latencies : ℕ → List Round → List Output
  latencies i [] = []
  latencies i (r ∷ rounds) = latency i r.start r.end (r.end -ℤ r.start) ∷ latencies (suc i) rounds

  bench_lat_loop-live :
      (ts_end_ref : Timespec) (i : ℕ) (rounds : List Round)
      → bench_lat_loop date port ts_end_ref i rounds
        ≡ ended
            (stops_in rounds)
            (latencies i (live rounds) ++ tally ts_end_ref (i + length (live rounds)))
  unfolding bench_lat_loop
  bench_lat_loop-live ts_end_ref i [] = refl
  bench_lat_loop-live ts_end_ref i (r ∷ rounds) = elim (Bool-cases r.stop) [
    | inl stopped ↦ rw stopped (ap (λ n. some (tally ts_end_ref n)) (omega arith))
    | inr goes ↦
        let line = latency i r.start r.end (r.end -ℤ r.start) ∷ [] in
        rw goes (
          ap (after date port line) (bench_lat_loop-live ts_end_ref (suc i) rounds)
          ∙ after-ended (stops_in rounds) line _
          ∙ ap
              (λ n.
                ended (stops_in rounds)
                  (line ++ (latencies (suc i) (live rounds) ++ tally ts_end_ref n)))
              (omega arith))
  ]

  -- The loops that poll a node, on the rounds that they meet. A poll of `k` timestamps ends after `k` rounds
  -- or at the first round that finds the flag set, whichever is first, and prints two times for each round
  -- before. A poll of a negative count and the two benchmarks end at the first round that finds the flag
  -- set, and only then; a benchmark prints the number of the rounds before, and the one of latencies
  -- also a line for each, numbered from 0.
  pub loops-live :
      (k c : ℕ) (ts_end_ref : Timespec) (rounds : List Round)
      → (poll_loop date port (pos k) 0 rounds
          ≡ ended (leb k (length (live rounds)) || stops_in rounds) (times (take k (live rounds))))
        × (poll_loop date port (negsuc c) 0 rounds ≡ ended (stops_in rounds) (times (live rounds)))
        × (bench_loop date port ts_end_ref 0 rounds
            ≡ ended (stops_in rounds) (tally ts_end_ref (length (live rounds))))
        × (bench_lat_loop date port ts_end_ref 0 rounds
            ≡ ended
                (stops_in rounds)
                (latencies 0 (live rounds) ++ tally ts_end_ref (length (live rounds))))
  loops-live k c ts_end_ref rounds = (
    ap (λ n. poll_loop date port (pos n) 0 rounds) (omega arith) ∙ poll_loop-from k 0 rounds,
    poll_loop-live c 0 rounds,
    bench_loop-live ts_end_ref 0 rounds
        ∙ ap (λ n. ended (stops_in rounds) (tally ts_end_ref n)) (omega arith),
    bench_lat_loop-live ts_end_ref 0 rounds
        ∙ ap (λ n. ended (stops_in rounds) (latencies 0 (live rounds) ++ tally ts_end_ref n))
            (omega arith),
  )
