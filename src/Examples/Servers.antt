-- ===== src/Examples/Servers.antt =====
-- Witnesses for the server of the time authority.
use tri_ha_rd_higher_resilie.Base.{true, ℕ, ◌≡◌, refl, List, [], ◌∷◌, map, Has}
use tri_ha_rd_higher_resilie.Base.Int.{pos, negsuc}
use tri_ha_rd_higher_resilie.Wire.{drift_message}
use tri_ha_rd_higher_resilie.Authority.Server.{
  Server, Handled, serves, negative_delay, serve, start,
}
use tri_ha_rd_higher_resilie.Authority.Server.Buffer.{
  Turn, turns, both_first, handled_of, own, serve-turns, serve_overwritten,
}
use tri_ha_rd_higher_resilie.Authority.Server.Threads.{count_arrivals, Accounts}
use tri_ha_rd_higher_resilie.Authority.Server.Origins.{Ran, serve-Accounts}
use tri_ha_rd_higher_resilie.Examples.{noon, epoch}
use tri_ha_rd_higher_resilie.Examples.Sockets.{marking}

abbrev key : List ℕ
key = 0 ∷ []

abbrev idle : Server
idle = record { buff = []; threads = [] }

abbrev first_turn : Turn
first_turn = record {
  client = 1;
  datagram = 7 ∷ drift_message (pos 3) (negsuc 4) noon epoch;
  readings = record { rec_ts = noon; xmt_ts = noon };
  memory = [];
}

abbrev second_turn : Turn
second_turn = record first_turn {
  client = 2;
  datagram = 7 ∷ drift_message (pos 9) (pos 0) noon noon;
}

serve-turns_example :
    handled_of (serve marking key key (pos 0) (turns (first_turn ∷ (second_turn ∷ []))) idle)
    ≡ map (own marking key key (pos 0)) (first_turn ∷ (second_turn ∷ []))
serve-turns_example =
    serve-turns marking key key (pos 0) (first_turn ∷ (second_turn ∷ [])) idle refl

serve_overwritten_example :
    handled_of (serve marking key key (pos 0) (both_first first_turn second_turn) idle)
    ≡ own marking key key (pos 0) (record first_turn { datagram = second_turn.datagram })
      ∷ (own marking key key (pos 0) second_turn ∷ [])
unfolding drift_message
serve_overwritten_example =
    serve_overwritten marking key key (pos 0) first_turn second_turn idle refl refl

serve-Accounts_example :
    let events = both_first first_turn second_turn in
    ((h : Handled)
      → Has h (handled_of (serve marking key key (pos 0) events idle))
      → Ran marking key key (pos 0) idle.buff [] events h)
    × ((c : ℕ) → Accounts c (count_arrivals c events) (serve marking key key (pos 0) events idle))
serve-Accounts_example =
    serve-Accounts marking key key (pos 0) (both_first first_turn second_turn) idle refl

start_runs : start ("server" ∷ ("20" ∷ [])) (pos 3) true ≡ serves (pos 20)
unfolding start
start_runs = refl

start_negative : start ("server" ∷ ("-1" ∷ [])) (pos 3) true ≡ negative_delay
unfolding start
start_negative = refl
