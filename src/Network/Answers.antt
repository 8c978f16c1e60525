-- ===== src/Network/Answers.antt =====
-- Which datagrams of a node are untainting messages, and which messages untaint it.
use Prim.Native.String.{String}
use mathlib.Core.Bool.{true≢false}
use tri_ha_rd_higher_resilie.Base.{
  ℕ, ◌≡◌, refl, sym, ◌∙◌, Bool, true, false, arith, List, [], ◌∷◌, Option, none, some, length, ◌==◌,
  ==_iff, if◌then◌else◌, not,
}
use tri_ha_rd_higher_resilie.Base.Int.{ℤ}
use tri_ha_rd_higher_resilie.Double.{Double}
use tri_ha_rd_higher_resilie.Timespec.{Timespec}
use tri_ha_rd_higher_resilie.Wire.{t_msg_expected_len, d_msg_expected_len}
use tri_ha_rd_higher_resilie.Node.{
  ENode, Datagram, Peer, peer, ClockState, ta_consistent_state, ta_inconsistent_state,
}
use tri_ha_rd_higher_resilie.Node.Clock.{is_ta_inconsistent}
use tri_ha_rd_higher_resilie.Node.Peers.{find, accept_sibling}
use tri_ha_rd_higher_resilie.Node.Taint.{
  accept_tainted, accept_untainting, answer_tainted, answer_found,
}
use tri_ha_rd_higher_resilie.Node.Messages.{Inputs, handle_message}
use tri_ha_rd_higher_resilie.Node.Steps.Keeps.{accept_tainted-Keeps, accept_drift-KeepsBoth}
use tri_ha_rd_higher_resilie.Network.{All}

-- A message that its receiver takes for an untainting message.
abbrev pub IsAnswer : List ℕ → Type 0
IsAnswer [] = ⊥
IsAnswer (b ∷ rest) = b ≡ b'U'

is_consistent : (s : ClockState) → is_ta_inconsistent s ≡ false → s ≡ ta_consistent_state
is_consistent ta_consistent_state h = refl
is_consistent ta_inconsistent_state h = absurd (true≢false h)

module _ {F : Double} where
  -- An untainting message is an answer, to the sender of what was received, which is a sibling, and of a node
  -- that is consistent with the TA.
  pub record Replies (ip : String) (cport : ℕ) (n : ENode F) (d : Datagram) : Type 0 where
    pub consistent : n.clock_state ≡ ta_consistent_state
    pub sibling : Peer
    pub known : find (peer ip cport) n.siblings ≡ some sibling
    pub to_ip : d.ip ≡ ip
    pub to_port : d.port ≡ cport

  abbrev pub OnlyReplies : String → ℕ → ENode F → List Datagram → Type 0
  OnlyReplies ip cport n l = All (λ d. IsAnswer d.payload → Replies ip cport n d) l

  either_replies :
      (ip : String) (cport : ℕ) (n : ENode F) (b : Bool) (x y : ENode F × List Datagram)
      → (b ≡ true → OnlyReplies ip cport n x.1)
      → (b ≡ false → OnlyReplies ip cport n y.1)
      → OnlyReplies ip cport n (if b then x else y).1
  either_replies ip cport n true x y p q = p refl
  either_replies ip cport n false x y p q = q refl

  answer_found-replies :
      (now : Timespec) (xmt_tsc : ℤ) (ip : String) (cport : ℕ) (buff : List ℕ) (o : Option Peer)
      (n : ENode F)
      → find (peer ip cport) n.siblings ≡ o
      → OnlyReplies ip cport n (answer_found now xmt_tsc ip cport buff o n).1
  unfolding answer_tainted
  answer_found-replies now xmt_tsc ip cport buff none n found = tt
  answer_found-replies now xmt_tsc ip cport buff (some q) n found =
      either_replies ip cport n (not (length buff == t_msg_expected_len)) _ _ (λ h. tt)
        (λ fits.
          either_replies ip cport n (is_ta_inconsistent n.clock_state) _ _ (λ h. tt)
            (λ h. (
              λ answer. record {
                consistent = is_consistent n.clock_state h;
                sibling = q;
                known = found;
                to_ip = refl;
                to_port = refl;
              },
              tt,
            )))

  pub handle_message-replies :
      (i : Inputs) (ip : String) (cport : ℕ) (buff : List ℕ) (n : ENode F)
      → OnlyReplies ip cport n (handle_message i ip cport buff n).1
  unfolding handle_message accept_tainted
  handle_message-replies i ip cport [] n = tt
  handle_message-replies i ip cport (b ∷ rest) n =
      either_replies ip cport n (b == b'S') _ _ (λ h. tt)
        (λ h.
          either_replies ip cport n (b == b'T') _ _
            (λ h.
              answer_found-replies i.now i.xmt_tsc ip cport (b ∷ rest)
                (find (peer ip cport) n.siblings) n refl)
            (λ h.
              either_replies ip cport n (b == b'U') _ _ (λ h. tt)
                (λ other.
                  either_replies ip cport n (b == b'D') _ _
                    (λ h.
                      either_replies ip cport n (not (length (b ∷ rest) == d_msg_expected_len)) _ _
                        (λ h. tt) (λ h. tt))
                    (λ h. (
                      λ answer. absurd (true≢false (sym ((==_iff b b'U').1 answer) ∙ other)),
                      tt,
                    )))))

  -- The message that untaints a node.
  pub handle_message-IsAnswer :
      (i : Inputs) (ip : String) (cport : ℕ) (buff : List ℕ) (n : ENode F)
      → n.tainted ≡ true
      → (handle_message i ip cport buff n).0.tainted ≡ false
      → IsAnswer buff × (accept_untainting ip cport buff n).tainted ≡ false
  unfolding handle_message accept_sibling
  handle_message-IsAnswer i ip cport [] n h e = absurd (true≢false (sym h ∙ e))
  handle_message-IsAnswer i ip cport (b ∷ rest) n h e = ground (
    arith,
    (accept_tainted-Keeps i.now i.xmt_tsc ip cport (b ∷ rest) n).taint,
    (accept_drift-KeepsBoth i.now (b ∷ rest) n).taint,
  )
