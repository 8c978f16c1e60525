-- ===== src/Examples/Taints.antt =====
-- Witnesses for the siblings, the tainted messages and the quorum.
use mathlib.Core.List.{Permᴰ}
use Prim.Native.String.{String}
use tri_ha_rd_higher_resilie.Base.{ℕ, ◌≤◌, ◌≡◌, ◌↔◌, refl, true, false, arith, List, [], ◌∷◌, some}
use tri_ha_rd_higher_resilie.Base.Int.{pos, ◌<ℤ◌, ◌+ℤ◌, ◌*ℤ◌, ◌-ℤ◌, neg_ℤ}
use tri_ha_rd_higher_resilie.Double.Exact.{exact, trunc, over, plus, times, minus}
use tri_ha_rd_higher_resilie.Timespec.{lt, add, sub, add_nsec, standardize}
use tri_ha_rd_higher_resilie.Timespec.Scale.{div}
use tri_ha_rd_higher_resilie.Wire.{untainting_message, read_i64, read_bool, read_timespec}
use tri_ha_rd_higher_resilie.Node.{ENode, Peer, peer, peer_eq}
use tri_ha_rd_higher_resilie.Node.Peers.{find}
use tri_ha_rd_higher_resilie.Node.Peers.Distinct.{Distinct}
use tri_ha_rd_higher_resilie.Node.Clock.{read_clock}
use tri_ha_rd_higher_resilie.Wire.Codec.{Fits}
use tri_ha_rd_higher_resilie.Node.Messages.{Inputs, handle_message}
use tri_ha_rd_higher_resilie.Node.Messages.Order.{handle_message-Unordered}
use tri_ha_rd_higher_resilie.Node.Taint.Order.{Unordered}
use tri_ha_rd_higher_resilie.Node.Messages.Recovery.{exchange_untaints}
use tri_ha_rd_higher_resilie.Node.Taint.{
  to_sibling, send_tainted_messages, accept_untainting, peer_clock_offset,
}
use tri_ha_rd_higher_resilie.Node.Taint.Round.{asked, answers, Answers_untaint}
use tri_ha_rd_higher_resilie.Node.Taint.Echoes.{IsGood, echo_untaints}
use tri_ha_rd_higher_resilie.Node.Taint.Untaint.{
  Untaints, accept_untainting-Untaints, single_sibling_untaints,
}
use tri_ha_rd_higher_resilie.Examples.{epoch, noon, sibling, steady, steady_tainted}

abbrev host : String
host = "127.0.0.1"

abbrev other_host : String
other_host = "10.0.0.2"

abbrev answer : List ℕ
answer = untainting_message (pos 4) true noon noon noon

abbrev answered : Peer
answered = record sibling { last_ts_is_consistent = (pos 4, true); views_as_consistent = true }

abbrev two : List Peer
two = answered ∷ (peer other_host 12345 ∷ [])

known : find sibling steady.siblings ≡ some sibling
unfolding find peer_eq
known = refl

abbrev inputs : Inputs
inputs = record { now = noon; xmt_tsc = pos 6000 }

abbrev met : ENode exact
met = record steady { port = 12346; siblings = peer host 12345 ∷ [] }

meets : find (peer host 12345) met.siblings ≡ some (peer host 12345)
unfolding find peer_eq
meets = refl

time-Fits : Fits (read_clock steady_tainted).1
unfolding read_clock add_nsec standardize ◌+ℤ◌ trunc over ◌*ℤ◌ ◌-ℤ◌
time-Fits = (omega arith, omega arith)

exchange_untaints_example :
    let (asking, requests) = send_tainted_messages epoch steady_tainted in
    (request : List ℕ) × (answered : List ℕ) × (requests ≡ to_sibling request sibling ∷ [])
    × ((handle_message inputs host 12345 request met).1
        ≡ record { payload = answered; ip = host; port = 12345 } ∷ [])
    × ((handle_message inputs host 12346 answered asking).0.tainted ≡ false)
exchange_untaints_example =
    exchange_untaints steady_tainted met sibling (peer host 12345) inputs inputs host host 12345
      12346 epoch refl known meets refl (omega arith) time-Fits

accept_untainting-Untaints_example :
    ((accept_untainting host 12346 answer steady_tainted).tainted ≡ false)
    ↔ Untaints host 12346 answer steady_tainted
accept_untainting-Untaints_example =
    accept_untainting-Untaints host 12346 answer steady_tainted refl

abbrev after_answer : ENode exact
after_answer = record steady { siblings = answered ∷ [] }

known_after : find sibling after_answer.siblings ≡ some answered
unfolding find peer_eq
known_after = refl

count_read : read_i64 7 answer ≡ pos 4
unfolding read_i64 untainting_message
count_read = refl

single_sibling_untaints_example :
    (accept_untainting host 12346 answer steady_tainted).tainted ≡ false
unfolding untainting_message
single_sibling_untaints_example =
    single_sibling_untaints host 12346 answer steady_tainted sibling refl known refl

abbrev trio : List Peer
trio = sibling ∷ (peer other_host 12345 ∷ (peer "10.0.0.3" 12345 ∷ []))

abbrev trio_tainted : ENode exact
trio_tainted = record steady_tainted { siblings = trio }

trio-Distinct : Distinct trio
unfolding peer_eq
trio-Distinct = ((refl, (refl, tt)), ((refl, tt), (tt, tt)))

answer-IsGood : IsGood answer trio_tainted
unfolding peer_clock_offset lt untainting_message read_bool add_nsec standardize ◌+ℤ◌ trunc over
    ◌*ℤ◌ ◌-ℤ◌ div plus times minus sub add read_timespec neg_ℤ
answer-IsGood = record { expected = refl; near = refl; viewed = refl }

newer : pos 0 <ℤ read_i64 7 answer
newer = rw count_read (omega arith)

echo_untaints_example :
    let first = accept_untainting host 12346 answer trio_tainted in
    (first.tainted ≡ true) × ((accept_untainting other_host 12345 answer first).tainted ≡ false)
echo_untaints_example =
    echo_untaints answer sibling (peer other_host 12345) (peer "10.0.0.3" 12345) trio_tainted refl
      trio-Distinct refl answer-IsGood newer newer newer

abbrev trio_too : List Peer
trio_too = peer other_host 12345 ∷ (sibling ∷ (peer "10.0.0.3" 12345 ∷ []))

handle_message-Unordered_example :
    Unordered
      (handle_message inputs host 12346 answer trio_tainted)
      (handle_message inputs host 12346 answer (record trio_tainted { siblings = trio_too }))
handle_message-Unordered_example =
    handle_message-Unordered trio_tainted trio_too (Permᴰ.swap refl refl) trio-Distinct inputs host
      12346 answer

abbrev duo_tainted : ENode exact
duo_tainted = record steady_tainted { siblings = sibling ∷ (peer other_host 12345 ∷ []) }

duo-IsGood : IsGood answer duo_tainted
unfolding peer_clock_offset
duo-IsGood = record {
  expected = answer-IsGood.expected;
  near = answer-IsGood.near;
  viewed = answer-IsGood.viewed;
}

duo_known : find (peer host 12346) duo_tainted.siblings ≡ some sibling
unfolding find peer_eq
duo_known = refl

Answers_untaint_example :
    ((accept_untainting host 12346 answer duo_tainted).tainted ≡ false) ↔ ((1 ≤ 1) × (2 ≤ 2))
Answers_untaint_example =
    Answers_untaint (pos 4) duo_tainted (accept_untainting host 12346 answer duo_tainted) 1 refl
      (omega arith, (omega arith, tt))
      (answers sibling answer asked duo_known (omega arith) count_read duo-IsGood)
