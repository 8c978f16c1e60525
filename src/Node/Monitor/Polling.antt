-- ===== src/Node/Monitor/Polling.antt =====
-- ENode.cpp, `monitor_rdtsc` of the build without AEX-Notify: the exits and the taint.
use mathlib.Core.Option.{some-injective}
use tri_ha_rd_higher_resilie.Base.{
  ◌≡◌, refl, sym, subst, ◌∙◌, inl, inr, arith, List, [], ◌∷◌, Option, none, some, Bool-cases,
  if_true, if_false, ◌&&◌,
}
use tri_ha_rd_higher_resilie.Base.Int.{ℤ, pos, ◌-ℤ◌, ◌≤ℤ◌, ltb_ℤ, +ℤ_parts}
use tri_ha_rd_higher_resilie.Double.{Double}
use tri_ha_rd_higher_resilie.Node.{ENode, print_state}
use tri_ha_rd_higher_resilie.Node.Monitor.{
  self_taint, end_delta, poll_loop, monitor_polling, stop_after,
}
use tri_ha_rd_higher_resilie.Node.Monitor.Counts.{Counts, Counts-same, Counts-trans}

module _ {F : Double} where
  -- A relation that each of the two loops keeps.
  module _ (R : ENode F → ENode F → Type 0) (trans : (n m k : ENode F) → R n m → R m k → R n k)
      (reads : (n : ENode F) (t : ℤ) → R n (record n { tsc = t }))
      (ends : (threshold delta : ℤ) (n : ENode F) → R n (end_delta threshold delta n)) where
    poll_loop-induction :
        (threshold stop_tsc : ℤ) (a : Option ℤ) (readings : List ℤ) (n m : ENode F)
        → poll_loop threshold stop_tsc a readings n ≡ some m
        → R n m
    unfolding poll_loop
    poll_loop-induction threshold stop_tsc none [] n m e = cc
    poll_loop-induction threshold stop_tsc (some a) [] n m e = cc
    poll_loop-induction threshold stop_tsc none (t ∷ readings) n m e =
        poll_loop-induction threshold stop_tsc (some t) readings n m e
    poll_loop-induction threshold stop_tsc (some a) (t ∷ readings) n m e =
        let read = record n { tsc = t } in
        let ended = end_delta threshold (t -ℤ a) read in
        let end : R n ended = trans n read ended (reads n t) (ends threshold (t -ℤ a) read) in
        let here = λ (f : some ended ≡ some m). subst (R n) (some-injective ended m f) end in
        let again = ltb_ℤ t stop_tsc && ltb_ℤ (t -ℤ a) threshold && ltb_ℤ (pos 0) (t -ℤ a) in
        elim (Bool-cases again) [
          | inl again ↦ trans n read m (reads n t) (
              poll_loop-induction threshold stop_tsc (some t) readings read m
                (sym (if_true _ _ _ again) ∙ e))
          | inr left ↦
              let e' = sym (if_false _ _ _ left) ∙ e in
              elim (Bool-cases (ltb_ℤ (t -ℤ a) (pos 0))) [
                | inl back ↦ here (sym (if_true _ _ _ back) ∙ e')
                | inr on ↦
                    let e'' = sym (if_false _ _ _ on) ∙ e' in
                    elim (Bool-cases (ltb_ℤ t stop_tsc)) [
                      | inl more ↦ trans n ended m end (
                          poll_loop-induction threshold stop_tsc none readings ended m
                            (sym (if_true _ _ _ more) ∙ e''))
                      | inr done ↦ here (sym (if_false _ _ _ done) ∙ e'')
                    ]
              ]
        ]

    pub monitor_polling-induction :
        (threshold start : ℤ) (readings : List ℤ) (n m : ENode F)
        → monitor_polling threshold start readings n ≡ some m
        → R n m
    unfolding monitor_polling
    monitor_polling-induction threshold start readings n m e =
        poll_loop-induction threshold (stop_after start n) none readings n m e

  end_delta-Counts : (threshold delta : ℤ) (n : ENode F) → Counts n (end_delta threshold delta n)
  unfolding end_delta self_taint print_state
  end_delta-Counts threshold delta n = ground (arith, +ℤ_parts n.total_aex_count (pos 1))

  -- The rounds stay within the limit for self-tainting.
  abbrev IsWithin : ENode F → Type 0
  IsWithin n = n.nb_uninterr_rounds ≤ℤ n.selftainting_rounds

  abbrev KeepsWithin : ENode F → ENode F → Type 0
  KeepsWithin n m =
      (m.selftainting_rounds ≡ n.selftainting_rounds)
      × (pos 0 ≤ℤ n.selftainting_rounds → IsWithin n → IsWithin m)

  KeepsWithin-trans : (n m k : ENode F) → KeepsWithin n m → KeepsWithin m k → KeepsWithin n k
  KeepsWithin-trans n m k p q =
      (q.0 ∙ p.0, λ h w. q.1 (subst (λ z. pos 0 ≤ℤ z) (sym p.0) h) (p.1 h w))

  end_delta-KeepsWithin :
      (threshold delta : ℤ) (n : ENode F) → KeepsWithin n (end_delta threshold delta n)
  unfolding end_delta self_taint print_state
  end_delta-KeepsWithin threshold delta n = ground arith

  -- In the build that finds exits by gaps between readings of the counter, a monitoring round that ends
  -- never lowers the count of exits and never clears the taint; if the count has changed, the node is
  -- tainted, and if not, the taint is as before. Rounds within the limit for self-tainting stay so.
  pub monitor_polling-Counts :
      (threshold start : ℤ) (readings : List ℤ) (n m : ENode F)
      → monitor_polling threshold start readings n ≡ some m
      → Counts n m
        × (pos 0 ≤ℤ n.selftainting_rounds
            → n.nb_uninterr_rounds ≤ℤ n.selftainting_rounds
            → m.nb_uninterr_rounds ≤ℤ m.selftainting_rounds)
  monitor_polling-Counts threshold start readings n m e = (
    monitor_polling-induction Counts Counts-trans (λ k t. Counts-same k _ refl refl refl)
        end_delta-Counts threshold start readings n m e,
    (monitor_polling-induction KeepsWithin KeepsWithin-trans (λ k t. (refl, λ h w. w))
        end_delta-KeepsWithin threshold start readings n m e).1,
  )
