-- ===== src/Timespec/Tests.antt =====
-- trihard/node/test/test_timespec.cpp: its checks, with the doubles computed exactly.
use tri_ha_rd_higher_resilie.Base.{
  ℕ, suc, ◌≡◌, refl, Bool, not, List, [], ◌∷◌, length, if◌then◌else◌,
}
use tri_ha_rd_higher_resilie.Base.Int.{ℤ, pos, negsuc, neg_ℤ, ◌+ℤ◌, ◌-ℤ◌, ◌*ℤ◌}
use tri_ha_rd_higher_resilie.Double.Exact.{exact, ratio, trunc, over, plus, minus, times}
use tri_ha_rd_higher_resilie.Timespec.{Timespec, timespec, standardize, eq, ne, add, add_nsec, sub}
use tri_ha_rd_higher_resilie.Timespec.Scale.{add_double, sub_double, mul, div}

abbrev at : ℤ → ℤ → Timespec
at = timespec

-- The comparison of a test: its operands are standardized.
unfoldable test : Timespec → Timespec → Bool
unfolding ne
test obtained expected = not (ne obtained expected)

-- `ok`, the number of the tests that pass.
unfoldable passed : List Bool → ℕ
passed [] = 0
passed (ok ∷ rest) = let more = passed rest in if ok then suc more else more

-- The tests of `main`, in their order.
unfoldable tests : List Bool
unfolding test
tests =
    test (at (pos 1) (pos 0)) (at (pos 1) (pos 0))
    ∷ test (at (pos 0) (pos 1000000000)) (at (pos 1) (pos 0))
    ∷ test (at (pos 0) (negsuc 999999999)) (at (negsuc 0) (pos 0))
    ∷ test (add_nsec (at (pos 1) (pos 0)) (pos 3)) (at (pos 1) (pos 3))
    ∷ test (add_double exact (at (pos 1) (pos 0)) (ratio (pos 2) 1)) (at (pos 3) (pos 0))
    ∷ test (add_double exact (at (pos 1) (pos 0)) (ratio (negsuc 1) 1)) (at (negsuc 0) (pos 0))
    ∷ test (add_double exact (at (pos 1) (pos 0)) (ratio (negsuc 2) 1)) (at (negsuc 1) (pos 0))
    ∷ test (add_double exact (at (pos 1) (pos 0)) (ratio (pos 5) 2)) (at (pos 3) (pos 500000000))
    ∷ test (sub_double exact (at (pos 1) (pos 0)) (ratio (pos 5) 2)) (at (negsuc 1) (pos 500000000))
    ∷ test (add (at (pos 1) (pos 0)) (at (pos 1) (pos 0))) (at (pos 2) (pos 0))
    ∷ test (add (at (pos 1) (pos 0)) (at (pos 0) (pos 1000000000))) (at (pos 2) (pos 0))
    ∷ test (add (at (pos 1) (pos 0)) (at (pos 0) (negsuc 999999999))) (at (pos 0) (pos 0))
    ∷ test (add (at (pos 1) (pos 0)) (at (negsuc 0) (pos 0))) (at (pos 0) (pos 0))
    ∷ test (add (at (pos 1) (pos 0)) (at (negsuc 1) (pos 0))) (at (negsuc 0) (pos 0))
    ∷ test (add (at (negsuc 0) (pos 0)) (at (pos 0) (negsuc 999999999))) (at (negsuc 1) (pos 0))
    ∷ test (add (at (negsuc 0) (pos 0)) (at (negsuc 1) (pos 0))) (at (negsuc 2) (pos 0))
    ∷ test (add (at (negsuc 0) (pos 0)) (at (pos 0) (pos 500000000)))
        (at (negsuc 0) (pos 500000000))
    ∷ test (add (at (negsuc 0) (pos 0)) (at (pos 0) (negsuc 499999999)))
        (at (negsuc 1) (pos 500000000))
    ∷ test (sub (at (pos 1) (pos 0)) (at (pos 1) (pos 0))) (at (pos 0) (pos 0))
    ∷ test (sub (at (pos 1) (pos 0)) (at (pos 0) (pos 1000000000))) (at (pos 0) (pos 0))
    ∷ test (sub (at (pos 1) (pos 0)) (at (pos 0) (negsuc 999999999))) (at (pos 2) (pos 0))
    ∷ test (sub (at (pos 1) (pos 0)) (at (negsuc 0) (pos 0))) (at (pos 2) (pos 0))
    ∷ test (sub (at (pos 1) (pos 0)) (at (negsuc 1) (pos 0))) (at (pos 3) (pos 0))
    ∷ test (sub (at (negsuc 0) (pos 0)) (at (pos 2) (pos 0))) (at (negsuc 2) (pos 0))
    ∷ test (sub (at (negsuc 0) (pos 0)) (at (negsuc 1) (pos 0))) (at (pos 1) (pos 0))
    ∷ test (sub (at (negsuc 0) (pos 0)) (at (pos 0) (pos 500000000)))
        (at (negsuc 1) (pos 500000000))
    ∷ test (sub (at (negsuc 0) (pos 0)) (at (pos 0) (negsuc 499999999)))
        (at (negsuc 0) (pos 500000000))
    ∷ test (mul exact (at (pos 1) (pos 0)) (ratio (pos 2) 1)) (at (pos 2) (pos 0))
    ∷ test (mul exact (at (pos 1) (pos 0)) (ratio (pos 1) 2)) (at (pos 0) (pos 500000000))
    ∷ test (mul exact (at (pos 2) (pos 500000000)) (ratio (pos 2) 1)) (at (pos 5) (pos 0))
    ∷ test (mul exact (at (pos 2) (pos 500000000)) (ratio (pos 1) 2)) (at (pos 1) (pos 250000000))
    ∷ test (mul exact (at (pos 1) (pos 0)) (ratio (negsuc 1) 1)) (at (negsuc 1) (pos 0))
    ∷ test (mul exact (at (pos 1) (pos 0)) (ratio (negsuc 0) 2)) (at (pos 0) (negsuc 499999999))
    ∷ test (mul exact (at (pos 2) (pos 500000000)) (ratio (negsuc 1) 1)) (at (negsuc 4) (pos 0))
    ∷ test (mul exact (at (pos 2) (pos 500000000)) (ratio (negsuc 0) 2))
        (at (negsuc 1) (pos 750000000))
    ∷ test (div exact (at (pos 1) (pos 0)) (ratio (pos 2) 1)) (at (pos 0) (pos 500000000))
    ∷ test (div exact (at (pos 1) (pos 0)) (ratio (pos 1) 2)) (at (pos 2) (pos 0))
    ∷ test (div exact (at (pos 2) (pos 500000000)) (ratio (pos 2) 1)) (at (pos 1) (pos 250000000))
    ∷ test (div exact (at (pos 2) (pos 500000000)) (ratio (pos 1) 2)) (at (pos 5) (pos 0))
    ∷ test (div exact (at (pos 1) (pos 0)) (ratio (negsuc 1) 1)) (at (pos 0) (negsuc 499999999))
    ∷ test (div exact (at (pos 1) (pos 0)) (ratio (negsuc 0) 2)) (at (negsuc 1) (pos 0))
    ∷ test (div exact (at (pos 2) (pos 500000000)) (ratio (negsuc 1) 1))
        (at (negsuc 1) (pos 750000000))
    ∷ test (div exact (at (pos 2) (pos 500000000)) (ratio (negsuc 0) 2)) (at (negsuc 4) (pos 0))
    ∷ []

all_pass : passed tests ≡ length tests
unfolding passed tests ◌+ℤ◌ ◌-ℤ◌ ◌*ℤ◌ neg_ℤ standardize eq add add_nsec sub add_double sub_double
    mul div trunc over plus minus times
all_pass = refl
