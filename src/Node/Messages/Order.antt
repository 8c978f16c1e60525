-- ===== src/Node/Messages/Order.antt =====
-- ENode.cpp, `handle_message`: the siblings in another order.
use mathlib.Core.List.{Permᴰ}
use Prim.Native.String.{String}
use tri_ha_rd_higher_resilie.Base.{
  ℕ, refl, sym, subst, Bool, true, false, List, [], ◌∷◌, length, ◌==◌, if◌then◌else◌, not,
}
use tri_ha_rd_higher_resilie.Double.{Double}
use tri_ha_rd_higher_resilie.Wire.{d_msg_expected_len}
use tri_ha_rd_higher_resilie.Node.{ENode, Datagram, Peer, peer}
use tri_ha_rd_higher_resilie.Node.Ntp.{accept_drift}
use tri_ha_rd_higher_resilie.Node.Ntp.Siblings.{accept_drift-Ignores, accept_drift-siblings}
use tri_ha_rd_higher_resilie.Node.Peers.{accept_sibling}
use tri_ha_rd_higher_resilie.Node.Peers.Distinct.{Distinct}
use tri_ha_rd_higher_resilie.Node.Peers.Order.{emplace-order}
use tri_ha_rd_higher_resilie.Node.Taint.Order.{
  Reordered, Unordered, accept_tainted-Unordered, accept_untainting-Reordered,
}
use tri_ha_rd_higher_resilie.Node.Messages.{Inputs, handle_message}

module _ {F : Double} where
  Unordered-if :
      (b : Bool) (x y x' y' : ENode F × List Datagram)
      → Unordered x x'
      → Unordered y y'
      → Unordered (if b then x else y) (if b then x' else y')
  Unordered-if true x y x' y' p q = p
  Unordered-if false x y x' y' p q = q

  module _ (n : ENode F) (qs : List Peer) (s : Permᴰ n.siblings qs) (d : Distinct n.siblings) where
    abbrev reordered : ENode F
    reordered = record n { siblings = qs }

    accept_sibling-Reordered :
        (ip : String) (cport : ℕ)
        → Reordered (accept_sibling ip cport n) (accept_sibling ip cport reordered)
    unfolding accept_sibling
    accept_sibling-Reordered ip cport = record {
      order = emplace-order (peer ip cport) n.siblings qs s d;
      same = refl;
    }

    accept_drift-Reordered :
        (i : Inputs) (buff : List ℕ)
        → Reordered (accept_drift i.now buff n) (accept_drift i.now buff reordered)
    accept_drift-Reordered i buff =
        subst (Reordered (accept_drift i.now buff n)) (sym (accept_drift-Ignores qs i.now buff n))
          (record {
            order = subst (λ ps. Permᴰ ps qs) (sym (accept_drift-siblings i.now buff n)) s;
            same = refl;
          })

    -- Two nodes differ in the order of their siblings alone, whose addresses are pairwise different.
    -- Whatever message arrives, and whatever is read meanwhile, both nodes send the same datagrams, and
    -- afterwards they differ in the order of their siblings alone.
    pub handle_message-Unordered :
        (i : Inputs) (ip : String) (cport : ℕ) (buff : List ℕ)
        → Unordered (handle_message i ip cport buff n) (handle_message i ip cport buff reordered)
    unfolding handle_message
    handle_message-Unordered i ip cport [] = (record { order = s; same = refl }, refl)
    handle_message-Unordered i ip cport (b ∷ rest) =
        let buff = b ∷ rest in
        let same : Unordered (n, []) (reordered, []) = (record { order = s; same = refl }, refl) in
        Unordered-if (b == b'S') _ _ _ _ (accept_sibling-Reordered ip cport, refl)
          (Unordered-if (b == b'T') _ _ _ _
            (accept_tainted-Unordered ip cport buff n qs s d i.now i.xmt_tsc)
            (Unordered-if (b == b'U') _ _ _ _
              (accept_untainting-Reordered ip cport buff n qs s d, refl)
              (Unordered-if (b == b'D') _ _ _ _
                (Unordered-if (not (length buff == d_msg_expected_len)) _ _ _ _ same
                  (accept_drift-Reordered i buff, refl))
                (record { order = s; same = refl }, refl))))
