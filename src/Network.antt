-- ===== src/Network.antt =====
-- Nodes at their addresses, and the datagrams between them: the threads of trihard/node/App/Node.cpp on
-- several hosts. A datagram can be lost, late, overtaken and delivered again; that none is forged is
-- the work of the AEAD of Node/Cipher. The address of its sender is not sealed, and is taken as given.
pub mod Answers
pub mod Senders
pub mod Untainting
use Prim.Native.String.{String}
use tri_ha_rd_higher_resilie.Base.{ℕ, Has, ◌≡◌, List, [], ◌∷◌, ◌++◌, map}
use tri_ha_rd_higher_resilie.Double.{Double}
use tri_ha_rd_higher_resilie.Node.{ENode, Datagram}
use tri_ha_rd_higher_resilie.Node.Messages.{handle_message}
use tri_ha_rd_higher_resilie.Node.Monitor.{end_monitor}
use tri_ha_rd_higher_resilie.Node.Peers.{add_sibling}
use tri_ha_rd_higher_resilie.Node.Taint.{send_tainted_messages}
use tri_ha_rd_higher_resilie.Node.Steps.{
  Step, exits, starts, monitors, polls, calibrates, asks_authority, receives, adds, serves, shadows,
  asks_siblings, stops,
}

pub record Packet : Type 0 where
  pub from_ip : String
  pub from_port : ℕ
  pub sent : Datagram

-- Every member has a property.
abbrev pub All {ℓ κ} : {A : Type ℓ} → (A → Type κ) → List A → Type κ
All P [] = Unit
All P (x ∷ xs) = P x × All P xs

-- Some of the packets, in their order.
pub data Drops : List Packet → List Packet → Type 0 where
  nothing : Drops [] []
  keeps : {p : Packet} {ps qs : List Packet} → Drops ps qs → Drops (p ∷ ps) (p ∷ qs)
  drops : {p : Packet} {ps qs : List Packet} → Drops ps qs → Drops (p ∷ ps) qs

pub record Host (F : Double) : Type 0 where
  pub ip : String
  pub node : ENode F

pub record World (F : Double) : Type 0 where
  pub hosts : List (Host F)
  pub flight : List Packet

module _ {F : Double} where
  abbrev pub packet : Host F → Datagram → Packet
  packet h d = record { from_ip = h.ip; from_port = h.node.port; sent = d }

  -- What a step gives to the socket.
  unfoldable pub emitted : {n m : ENode F} → Step n m → List Datagram
  emitted {n} (calibrates now dummy_ts runs d e) = d ∷ []
  emitted {n} (asks_authority now dummy_ts e) = (end_monitor now dummy_ts n).1
  emitted {n} (receives i ip cport buff e) = (handle_message i ip cport buff n).1
  emitted {n} (adds failed hostname port e) = (add_sibling failed hostname port n).1
  emitted {n} (asks_siblings dummy_ts e) = (send_tainted_messages dummy_ts n).1
  emitted {n} _ = []

  -- What a step takes from the socket is a packet in flight for its host.
  abbrev pub Delivered : List Packet → Host F → {n m : ENode F} → Step n m → Type 0
  Delivered flight h (receives i ip cport buff e) =
      Has
        (record {
          from_ip = ip;
          from_port = cport;
          sent = record { payload = buff; ip = h.ip; port = h.node.port };
        })
        flight
  Delivered flight h _ = Unit

  -- A host takes a step; packets are lost; the time authority, which is no host, sends a drift message.
  pub data Moves (w v : World F) : Type 0 where
    takes :
        (before after : List (Host F)) (h : Host F) (m : ENode F) (s : Step h.node m)
        → w.hosts ≡ before ++ (h ∷ after)
        → Delivered w.flight h s
        → v.hosts ≡ before ++ (record h { node = m } ∷ after)
        → v.flight ≡ map (packet h) (emitted s) ++ w.flight
        → Moves w v
    loses : v.hosts ≡ w.hosts → Drops w.flight v.flight → Moves w v
    authority :
        (p : Packet) (rest : List ℕ)
        → p.sent.payload ≡ b'D' ∷ rest
        → v.hosts ≡ w.hosts
        → v.flight ≡ p ∷ w.flight
        → Moves w v

  pub data Runs (w : World F) : World F → Type 0 where
    begins : Runs w w
    moves : {v u : World F} → Runs w v → Moves v u → Runs w u
