-- ===== src/Node/Ntp/Phase.antt =====
-- What a drift message does to the NTP state machine, on the fields that the machine consists of.
use tri_ha_rd_higher_resilie.Base.{ℕ, ◌+◌, ◌^◌, ◌<◌, ◌≡◌, ◌≢◌, ◌⊎◌, Bool, true, false, arith}
use tri_ha_rd_higher_resilie.Node.{
  NodeState, sync_state, spik_state, freq_state, min_poll_exponent, step_out_threshold_s,
}

-- A message of the TA leads from the first state to the second.
pub data Follows (s t : NodeState) : Type 0 where
  stay : t ≡ s → Follows s t
  spike : s ≡ sync_state → t ≡ spik_state → Follows s t
  settle : s ≡ spik_state → t ≡ sync_state → Follows s t
  trained : s ≡ freq_state → t ≡ sync_state → Follows s t

-- The fields of the machine that a drift message reads and writes.
pub record Phase : Type 0 where
  pub node_state : NodeState
  pub poll_exponent : ℕ
  pub pass_count : ℕ
  pub enter_freq : Bool

-- Judging a new offset leaves the machine as it is, but for a spike.
pub record Judged (p q : Phase) : Type 0 where
  pub state :
      (q.node_state ≡ p.node_state) ⊎ ((p.node_state ≡ sync_state) × (q.node_state ≡ spik_state))
  pub polls : q.poll_exponent ≡ p.poll_exponent
  pub passed : q.pass_count ≡ p.pass_count
  pub entered : q.enter_freq ≡ p.enter_freq

-- What `select_clock` does to the machine, by its state.
abbrev pub Stays : Phase → Phase → Type 0
Stays p q =
    (q.pass_count ≡ p.pass_count + 2 ^ p.poll_exponent)
    × (q.pass_count < step_out_threshold_s)
    × (q.poll_exponent ≡ p.poll_exponent)
    × (q.enter_freq ≡ p.enter_freq)

pub data Selected (p q : Phase) : Type 0 where
  in_sync : p.node_state ≡ sync_state → q ≡ p → Selected p q
  in_spik : p.node_state ≡ spik_state → q.node_state ≡ spik_state → Stays p q → Selected p q
  out_spik :
      p.node_state ≡ spik_state
      → q.node_state ≡ sync_state
      → q.poll_exponent ≡ p.poll_exponent
      → q.pass_count ≡ 0
      → Selected p q
  enters :
      p.node_state ≡ freq_state
      → p.enter_freq ≡ true
      → q.node_state ≡ freq_state
      → q.enter_freq ≡ false
      → q.poll_exponent ≡ p.poll_exponent
      → Selected p q
  in_freq :
      p.node_state ≡ freq_state
      → p.enter_freq ≡ false
      → q.node_state ≡ freq_state
      → q.enter_freq ≡ false
      → Stays p q
      → Selected p q
  out_freq :
      p.node_state ≡ freq_state
      → p.enter_freq ≡ false
      → q.node_state ≡ sync_state
      → q.poll_exponent ≡ min_poll_exponent
      → q.pass_count ≡ 0
      → Selected p q

pub Selected-Follows :
    (p j q : Phase) → Judged p j → Selected j q → Follows p.node_state q.node_state
Selected-Follows p j q h (in_sync e f) = grind (arith, stay, spike)
Selected-Follows p j q h (in_spik e f g) = grind (arith, stay, spike)
Selected-Follows p j q h (out_spik e f g k) = grind (arith, stay, settle)
Selected-Follows p j q h (enters e f g k l) = grind (arith, stay)
Selected-Follows p j q h (in_freq e f g k l) = grind (arith, stay)
Selected-Follows p j q h (out_freq e f g k l) = grind (arith, trained)

-- A message that leaves the machine in spike or training: some rounds pass, or the training begins.
abbrev pub Lingers : Phase → Phase → Type 0
Lingers p q =
    (Stays p q × ((p.node_state ≡ spik_state) ⊎ (p.enter_freq ≡ false)))
    ⊎ ((p.node_state ≡ freq_state)
        × (p.enter_freq ≡ true)
        × (q.enter_freq ≡ false)
        × (q.poll_exponent ≡ p.poll_exponent))

pub Selected-Lingers :
    (p j q : Phase)
    → p.node_state ≢ sync_state
    → q.node_state ≡ p.node_state
    → Judged p j
    → Selected j q
    → Lingers p q
Selected-Lingers p j q h k g (in_sync e f) = absurd (h (ground arith))
Selected-Lingers p j q h k g (in_spik e f s) = ground (arith, g.passed, g.polls, s)
Selected-Lingers p j q h k g (out_spik e f a b) = absurd (h (ground arith))
Selected-Lingers p j q h k g (enters e f a l m) = ground arith
Selected-Lingers p j q h k g (in_freq e f a b s) = ground (arith, g.passed, g.polls, s)
Selected-Lingers p j q h k g (out_freq e f a b c) = absurd (h (ground arith))
