-- ===== src/Node/Steps/Clocks.antt =====
-- The reference time of a node over its steps.
use Prim.Native.String.{String}
use tri_ha_rd_higher_resilie.Base.{ℕ, ◌≡◌, refl, ◌∙◌, Bool, arith, List, Option, none, some}
use tri_ha_rd_higher_resilie.Base.Int.{ℤ}
use tri_ha_rd_higher_resilie.Double.{Double}
use tri_ha_rd_higher_resilie.Node.{ENode, Peer, peer, print_state, enode}
use tri_ha_rd_higher_resilie.Node.Peers.{find, add_sibling, accept_sibling}
use tri_ha_rd_higher_resilie.Node.Taint.{aex_handler, accept_untainting, untaint_by, record_answer}
use tri_ha_rd_higher_resilie.Node.Monitor.{
  count_round, self_taint, check_count, end_delta, monitor_polling,
}
use tri_ha_rd_higher_resilie.Node.Monitor.Polling.{monitor_polling-induction}
use tri_ha_rd_higher_resilie.Node.Steps.Rounds.{Relates}

module _ {F : Double} where
  abbrev pub SameTime : ENode F → ENode F → Type 0
  SameTime n m = m.ts_ref ≡ n.ts_ref

  SameTime-trans : (n m k : ENode F) → SameTime n m → SameTime m k → SameTime n k
  SameTime-trans n m k p q = q ∙ p

  pub aex_handler-SameTime : (t : ℤ) (n : ENode F) → SameTime n (aex_handler t n)
  unfolding aex_handler print_state
  aex_handler-SameTime t n = ground arith

  check_count-SameTime : (mem : ℤ) (n : ENode F) → SameTime n (check_count mem n)
  unfolding check_count print_state
  check_count-SameTime mem n = ground arith

  self_taint-SameTime : (n : ENode F) → SameTime n (self_taint n)
  unfolding self_taint print_state
  self_taint-SameTime n = ground arith

  count_round-SameTime : (mem : ℤ) (n : ENode F) → SameTime n (count_round mem n)
  unfolding count_round
  count_round-SameTime mem n = ground arith

  end_delta-SameTime :
      (threshold delta : ℤ) (n : ENode F) → SameTime n (end_delta threshold delta n)
  unfolding end_delta self_taint print_state
  end_delta-SameTime threshold delta n = ground arith

  pub parts-SameTime : Relates SameTime
  parts-SameTime = record {
    same = λ n. refl;
    then = SameTime-trans;
    exits = aex_handler-SameTime;
    counts = λ t count n. refl;
    ends = count_round-SameTime;
    taints = self_taint-SameTime;
    checks = check_count-SameTime;
    stops = λ stop n. refl;
    averages = λ average n. refl;
  }

  pub monitor_polling-SameTime :
      (threshold start : ℤ) (readings : List ℤ) (n m : ENode F)
      → monitor_polling threshold start readings n ≡ some m
      → SameTime n m
  monitor_polling-SameTime threshold start readings n m e =
      monitor_polling-induction SameTime SameTime-trans (λ k t. refl) end_delta-SameTime threshold
        start readings n m e

  record_answer-SameTime :
      (buff : List ℕ) (q : Peer) (n : ENode F) → SameTime n (record_answer buff q n)
  unfolding record_answer
  record_answer-SameTime buff q n = ground arith

  untaint_by-SameTime :
      (buff : List ℕ) (o : Option Peer) (n : ENode F) → SameTime n (untaint_by buff o n)
  unfolding untaint_by print_state
  untaint_by-SameTime buff none n = refl
  untaint_by-SameTime buff (some q) n = ground (arith, record_answer-SameTime buff q n)

  pub accept_untainting-SameTime :
      (ip : String) (cport : ℕ) (buff : List ℕ) (n : ENode F)
      → SameTime n (accept_untainting ip cport buff n)
  unfolding accept_untainting print_state
  accept_untainting-SameTime ip cport buff n =
      let o = find (peer ip cport) n.siblings in
      ground (arith, untaint_by-SameTime buff o (print_state enode n))

  pub add_sibling-SameTime :
      (failed : Bool) (hostname : String) (port : ℕ) (n : ENode F)
      → SameTime n (add_sibling failed hostname port n).0
  unfolding add_sibling
  add_sibling-SameTime failed hostname port n = ground arith

  pub accept_sibling-SameTime :
      (ip : String) (cport : ℕ) (n : ENode F) → SameTime n (accept_sibling ip cport n)
  unfolding accept_sibling
  accept_sibling-SameTime ip cport n = refl
