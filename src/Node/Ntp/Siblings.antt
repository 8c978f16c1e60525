-- ===== src/Node/Ntp/Siblings.antt =====
-- ENode.cpp: a drift message does not depend on the siblings.
use tri_ha_rd_higher_resilie.Base.{ℕ, ◌≡◌, refl, sym, ap, ◌∙◌, List, arith}
use tri_ha_rd_higher_resilie.Double.{Double}
use tri_ha_rd_higher_resilie.Timespec.{Timespec}
use tri_ha_rd_higher_resilie.Node.{
  ENode, Peer, print_state, NodeState, freq_state, spik_state, sync_state, ta,
}
use tri_ha_rd_higher_resilie.Node.Clock.{
  read_clock, shadow_tsc_update, shadow_round, step_clock, discipline_clock,
}
use tri_ha_rd_higher_resilie.Node.Ntp.{
  accept_drift, judge_offset, select_clock, select_by, select_sync, select_spik, select_freq,
  end_training, half_offset,
}
use tri_ha_rd_higher_resilie.Wire.{read_i64, read_timespec}

module _ {F : Double} (qs : List Peer) where
  abbrev pub with_siblings : ENode F → ENode F
  with_siblings n = record n { siblings = qs }

  -- An operation that neither reads nor writes the siblings.
  abbrev pub Ignores : (ENode F → ENode F) → Type 0
  Ignores f = (n : ENode F) → f (with_siblings n) ≡ with_siblings (f n)

  judge_offset-Ignores : Ignores judge_offset
  unfolding judge_offset print_state
  judge_offset-Ignores n = ground arith

  end_training-Ignores : Ignores end_training
  unfolding end_training step_clock print_state
  end_training-Ignores n = refl

  select_freq-Ignores : Ignores select_freq
  unfolding select_freq end_training step_clock print_state
  select_freq-Ignores n = ground arith

  select_spik-Ignores : Ignores select_spik
  unfolding select_spik step_clock print_state
  select_spik-Ignores n = ground arith

  select_sync-Ignores : Ignores select_sync
  unfolding select_sync discipline_clock step_clock
  select_sync-Ignores n = ground arith

  pub shadow_tsc_update-Ignores : (now : Timespec) → Ignores (shadow_tsc_update now)
  unfolding shadow_tsc_update shadow_round print_state
  shadow_tsc_update-Ignores now n = ground arith

  select_by-Ignores : (state : NodeState) → Ignores (select_by state)
  select_by-Ignores sync_state n = select_sync-Ignores n
  select_by-Ignores spik_state n = select_spik-Ignores n
  select_by-Ignores freq_state n = select_freq-Ignores n

  select_clock-Ignores : Ignores select_clock
  unfolding select_clock
  select_clock-Ignores n = select_by-Ignores n.node_state n

  Ignores-compose : (f g : ENode F → ENode F) → Ignores f → Ignores g → Ignores (λ n. g (f n))
  Ignores-compose f g hf hg n = ap g (hf n) ∙ hg (f n)

  -- The parts of `case 'D'` before and after the choice of the state.
  with_offset : List ℕ → ENode F → ENode F
  with_offset buff n =
      let (read, recv_ts) = read_clock n in
      record read {
        clock_offset =
            half_offset F (read_timespec 17 buff) (read_timespec 33 buff) (read_timespec 49 buff)
              recv_ts;
      }

  with_recvd : List ℕ → ENode F → ENode F
  with_recvd buff n = record n {
    calib_recvd = record {
      msg_id = read_i64 5 buff;
      total_aex_count = n.total_aex_count;
      tsc = n.tsc;
    };
  }

  with_offset-Ignores : (buff : List ℕ) → Ignores (with_offset buff)
  unfolding with_offset read_clock
  with_offset-Ignores buff n = refl

  with_recvd-Ignores : (buff : List ℕ) → Ignores (with_recvd buff)
  unfolding with_recvd
  with_recvd-Ignores buff n = refl

  printed-Ignores : Ignores (print_state ta)
  unfolding print_state
  printed-Ignores n = refl

  module _ (now : Timespec) (buff : List ℕ) where
    shadowed : ENode F → ENode F
    shadowed n = shadow_tsc_update now (print_state ta n)

    offset : ENode F → ENode F
    offset n = with_offset buff (shadowed n)

    judged : ENode F → ENode F
    judged n = select_clock (judge_offset (offset n))

    shadowed-Ignores : Ignores shadowed
    unfolding shadowed
    shadowed-Ignores =
        Ignores-compose (print_state ta) (shadow_tsc_update now) printed-Ignores
          (shadow_tsc_update-Ignores now)

    offset-Ignores : Ignores offset
    unfolding offset
    offset-Ignores =
        Ignores-compose shadowed (with_offset buff) shadowed-Ignores (with_offset-Ignores buff)

    judged-Ignores : Ignores judged
    unfolding judged
    judged-Ignores n =
        ap (λ m. select_clock (judge_offset m)) (offset-Ignores n)
        ∙ ap select_clock (judge_offset-Ignores (offset n))
        ∙ select_clock-Ignores (judge_offset (offset n))

    accept_drift-parts : (n : ENode F) → accept_drift now buff n ≡ with_recvd buff (judged n)
    unfolding accept_drift judged offset shadowed with_offset with_recvd
    accept_drift-parts n = refl

    -- A drift message is handled without a look at the siblings, and leaves them as they are.
    pub accept_drift-Ignores : Ignores (accept_drift now buff)
    accept_drift-Ignores n =
        accept_drift-parts (with_siblings n)
        ∙ ap (with_recvd buff) (judged-Ignores n)
        ∙ with_recvd-Ignores buff (judged n)
        ∙ ap with_siblings (sym (accept_drift-parts n))

pub accept_drift-siblings :
    {F : Double} (now : Timespec) (buff : List ℕ) (n : ENode F)
    → (accept_drift now buff n).siblings ≡ n.siblings
accept_drift-siblings now buff n = ap (λ m. m.siblings) (accept_drift-Ignores n.siblings now buff n)
