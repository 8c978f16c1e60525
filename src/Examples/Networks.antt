-- ===== src/Examples/Networks.antt =====
-- A witness for the network: a tainted node and its sibling on one host.
use Prim.Native.String.{String}
use tri_ha_rd_higher_resilie.Base.{ℕ, ◌≡◌, refl, true, false, inl, List, [], ◌∷◌, ◌++◌, map}
use tri_ha_rd_higher_resilie.Base.Int.{pos}
use tri_ha_rd_higher_resilie.Double.Exact.{exact}
use tri_ha_rd_higher_resilie.Wire.{tainted_message, untainting_message}
use tri_ha_rd_higher_resilie.Node.{ENode, Datagram, peer, peer_eq}
use tri_ha_rd_higher_resilie.Node.Clock.{read_clock}
use tri_ha_rd_higher_resilie.Node.Peers.{find}
use tri_ha_rd_higher_resilie.Node.Taint.{send_tainted_messages, accept_tainted, answer_tainted}
use tri_ha_rd_higher_resilie.Node.Taint.Untaint.{single_sibling_untaints}
use tri_ha_rd_higher_resilie.Node.Messages.{Inputs, handle_message}
use tri_ha_rd_higher_resilie.Node.Steps.{Step, receives, asks_siblings}
use tri_ha_rd_higher_resilie.Network.{
  Host, World, packet, emitted, takes, Runs, begins, moves, Delivered,
}
use tri_ha_rd_higher_resilie.Network.Untainting.{VouchedFor, Runs-VouchedFor}
use tri_ha_rd_higher_resilie.Examples.{epoch, noon, sibling, steady, steady_tainted}

abbrev local : String
local = "127.0.0.1"

abbrev inputs : Inputs
inputs = record { now = noon; xmt_tsc = pos 6000 }

abbrev asker : Host exact
asker = record { ip = local; node = steady_tainted }

abbrev helper : Host exact
helper = record {
  ip = local;
  node = record steady { port = 12346; siblings = peer local 12345 ∷ [] };
}

abbrev world : World exact
world = record { hosts = asker ∷ helper ∷ []; flight = [] }

abbrev request : List ℕ
request = tainted_message (pos 0) (read_clock steady_tainted).1 epoch

abbrev asked : ENode exact
asked = (send_tainted_messages epoch steady_tainted).0

abbrev asking : Step asker.node asked
asking = asks_siblings epoch refl

abbrev world_asked : World exact
world_asked = record {
  hosts = record asker { node = asked } ∷ helper ∷ [];
  flight = map (packet asker) (emitted asking) ++ [];
}

abbrev replying : Step helper.node (handle_message inputs local 12345 request helper.node).0
replying = receives inputs local 12345 request refl

requested : Delivered world_asked.flight helper replying
unfolding emitted send_tainted_messages read_clock
requested = inl refl

abbrev helped : ENode exact
helped = (handle_message inputs local 12345 request helper.node).0

abbrev payload_of : List Datagram → List ℕ
payload_of [] = []
payload_of (d ∷ ds) = d.payload

abbrev answer : List ℕ
answer = payload_of (handle_message inputs local 12345 request helper.node).1

abbrev world_replied : World exact
world_replied = record {
  hosts = record asker { node = asked } ∷ record helper { node = helped } ∷ [];
  flight = map (packet helper) (emitted replying) ++ world_asked.flight;
}

abbrev untainted : ENode exact
untainted = (handle_message inputs local 12346 answer asked).0

abbrev hearing : Step asked untainted
hearing = receives inputs local 12346 answer refl

answers : Delivered world_replied.flight (record asker { node = asked }) hearing
unfolding emitted send_tainted_messages read_clock handle_message accept_tainted answer_tainted find
    peer_eq tainted_message
answers = inl refl

run : Runs world world_replied
run =
    moves (moves begins (takes [] (helper ∷ []) asker asked asking refl tt refl refl)) (
      takes (record asker { node = asked } ∷ []) [] helper helped replying refl requested refl refl)

asked_tainted : asked.tainted ≡ true
unfolding send_tainted_messages read_clock
asked_tainted = refl

hears : untainted.tainted ≡ false
unfolding handle_message accept_tainted answer_tainted find peer_eq tainted_message
    untainting_message send_tainted_messages read_clock
hears = single_sibling_untaints local 12346 answer asked sibling refl refl refl

Runs-VouchedFor_example : VouchedFor run (record asker { node = asked })
Runs-VouchedFor_example =
    Runs-VouchedFor world world_replied run (record asker { node = asked }) untainted hearing tt
      answers asked_tainted hears
