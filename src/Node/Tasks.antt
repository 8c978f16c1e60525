-- ===== src/Node/Tasks.antt =====
-- trihard/node/Enclave/ENode.cpp: the constructor and the threads of a node. A thread that waits is
-- given the states of the node that it finds, in order; `none` means that they end before its wait.
pub mod Polling
pub mod Stopping
pub mod Sent
pub mod Delivery
use tri_ha_rd_higher_resilie.Base.{
  ℕ, Bool, true, false, not, ◌&&◌, ◌||◌, List, [], ◌∷◌, ◌++◌, Option, none, some, if◌then◌else◌,
}
use tri_ha_rd_higher_resilie.Base.Int.{ℤ, pos, negsuc, ◌+ℤ◌, ◌-ℤ◌, ◌*ℤ◌, ltb_ℤ, eqb_ℤ}
use tri_ha_rd_higher_resilie.Double.{Double}
use tri_ha_rd_higher_resilie.Timespec.{Timespec, timespec}
use tri_ha_rd_higher_resilie.Node.{
  ENode, Datagram, freq_state, ta_inconsistent_state, ta_inconsistent, freq, print_state,
  full_calib, step_out_threshold_s,
}
use tri_ha_rd_higher_resilie.Node.Cipher.{Aead, increment_nonce, test_encdec}
use tri_ha_rd_higher_resilie.Node.Clock.{get_timestamp, shadow_tsc_update}
use tri_ha_rd_higher_resilie.Node.Receive.{Host}
use tri_ha_rd_higher_resilie.Node.Socket.{Net, Setup, call, wrlock, unlock, closes, setup_socket}
use tri_ha_rd_higher_resilie.Node.Taint.{send_tainted_messages}

-- `test_key`, in bytes.
abbrev pub test_key : List ℕ
test_key =
    181 ∷ 44 ∷ 80 ∷ 90 ∷ 55 ∷ 215 ∷ 142 ∷ 218 ∷ 93 ∷ 211 ∷ 79 ∷ 32 ∷ 194 ∷ 37 ∷ 64 ∷ 234 ∷ 27 ∷ 88
    ∷ 150 ∷ 60 ∷ 248 ∷ 229 ∷ 191 ∷ 143 ∷ 250 ∷ 133 ∷ 249 ∷ 242 ∷ 73 ∷ 37 ∷ 5 ∷ 180 ∷ []

-- A tainted message to each sibling and the wait for the answers: what the clock of the OS returns,
-- the local that is never written, and the states that the wait finds.
pub record Try (F : Double) : Type 0 where
  pub now : Timespec
  pub dummy_ts : Timespec
  pub found : List (ENode F)

-- What a round of `poll_timestamp` finds: whether the node is stopping, `tsc` at its call of
-- `get_timestamp`, and the states that this call finds.
pub record Poll (F : Double) : Type 0 where
  pub stopping : Bool
  pub mem_tsc : ℤ
  pub found : List (ENode F)

abbrev pub polled : Timespec → Option (List Timespec) → Option (List Timespec)
polled ts none = none
polled ts (some later) = some (ts ∷ later)

module _ {F : Double} where
  open F use {Value, of_ℤ, trunc, times, less}

  -- The static variables of the methods, as the load of the enclave leaves them for its first node.
  abbrev pub loaded : ENode F → ENode F
  loaded memory = record memory {
    tainted_msg_count = pos 0;
    ntp_step = 0;
    poll_count = 0;
    pass_count = 0;
    startup_count = pos step_out_threshold_s;
    enter_freq = true;
    train_start_ts = timespec (pos 0) (pos 0);
    train_stop_ts = timespec (pos 0) (pos 0);
  }

  -- The fields that the constructor sets, and the static variables. The others are as `memory` has them.
  unfoldable pub construct : ENode F → ℕ → Value → Value → ℤ → ENode F
  construct memory port tsc_freq shadow_tsc_freq sleep_attack_ms = record (loaded memory) {
    port = port;
    stop = false;
    add_count = pos 0;
    total_aex_count = pos 0;
    selftainting_rounds = pos 100;
    node_state = freq_state;
    clock_state = ta_inconsistent_state;
    clock_offset = timespec (pos 0) (pos 0);
    poll_exponent = 2;
    calib_count = false;
    tainted = false;
    sleep_attack_ms = sleep_attack_ms;
    tsc_freq = tsc_freq;
    shadow_tsc_freq = shadow_tsc_freq;
    attacker = less shadow_tsc_freq tsc_freq;
    tsc_offset = pos 0;
    siblings = [];
    monitor_stopped = false;
    refresh_stopped = false;
    trigger_stopped = false;
  }

  -- The constructor. `cipher` holds the nonce as it is in memory and the static of `incrementNonce`.
  unfoldable pub create : Aead → Setup → Host F → ℕ → Value → Value → ℤ → Host F
  unfolding construct increment_nonce test_encdec setup_socket print_state
  create A s memory port tsc_freq shadow_tsc_freq sleep_attack_ms =
      let constructed = construct memory.node port tsc_freq shadow_tsc_freq sleep_attack_ms in
      let keyed = record (increment_nonce memory.net.cipher) { key = test_key } in
      let (net, _) = setup_socket s (record memory.net { sock = negsuc 0; cipher = keyed }) in
      let (tested, _) = test_encdec A net.cipher in
      record {
        node = print_state freq (print_state ta_inconsistent constructed);
        net = record net { cipher = tested };
      }

  -- `monitor`, before its loop. `now` is the time of the OS and `reading` the counter.
  unfoldable pub start_monitor : Timespec → ℤ → ENode F → ENode F
  unfolding print_state
  start_monitor now reading n =
      print_state full_calib
        (record n { ts_ref = now; tsc_ref = reading; tsc = reading; last_update_tsc = reading })

  -- `untaint_trigger`: the states that its rounds find, and whether each signals `tainted_cond`.
  unfoldable pub untaint_trigger : List (ENode F) → Option (List Bool × ENode F)
  untaint_trigger [] = none
  untaint_trigger (n ∷ later) =
      let rest = untaint_trigger later in
      if n.stop
      then some ([], record n { trigger_stopped = true })
      else elim rest [ none ↦ none | some r ↦ some (n.tainted ∷ r.0, r.1) ]

  -- The wait of `refresh` for answers, of 10 ms.
  unfoldable pub await_answers : ℤ → List (ENode F) → Option (ENode F)
  await_answers reference_tsc [] = none
  await_answers reference_tsc (n ∷ later) =
      let rest = await_answers reference_tsc later in
      let limit = trunc (times n.tsc_freq (of_ℤ (pos 1000000))) *ℤ pos 10 in
      if n.tainted && ltb_ℤ (n.tsc -ℤ reference_tsc) limit && not n.stop then rest else some n

  abbrev try_again :
      ℤ
      → List Datagram
      → (ENode F → Option (ENode F × List Datagram))
      → Option (ENode F)
      → Option (ENode F × List Datagram)
  try_again mem sent more none = none
  try_again mem sent more (some m) =
      let rest = more m in
      if not (eqb_ℤ mem m.total_aex_count) && not m.stop
      then elim rest [ none ↦ none | some r ↦ some (r.0, sent ++ r.1) ]
      else some (m, sent)

  -- The `do … while` of `refresh`: it is repeated while exits come in between.
  unfoldable pub untaint : List (Try F) → ENode F → Option (ENode F × List Datagram)
  unfolding shadow_tsc_update send_tainted_messages await_answers
  untaint [] n = none
  untaint (t ∷ more) n =
      let updated = shadow_tsc_update t.now n in
      let (asked, sent) = send_tainted_messages t.dummy_ts updated in
      try_again updated.total_aex_count sent (λ m. untaint more m) (await_answers asked.tsc t.found)

  -- A round of `refresh`, in the state that it finds after its wait for `tainted_cond`: whether it
  -- goes on.
  unfoldable pub refresh_round : List (Try F) → ENode F → Option (ENode F × List Datagram × Bool)
  unfolding untaint
  refresh_round tries n =
      let untainted = untaint tries n in
      if n.stop
      then some (record n { refresh_stopped = true }, [], false)
      else if n.tainted && n.calib_count
      then elim untainted [ none ↦ none | some r ↦ some (r.0, r.1, true) ]
      else some (n, [], true)

  -- The two waits of `stop_tasks`.
  unfoldable pub await_receivers : List (ENode F) → Option (ENode F)
  await_receivers [] = none
  await_receivers (n ∷ later) =
      let rest = await_receivers later in
      if not n.monitor_stopped && not n.readfrom_stopped then rest else some n

  unfoldable pub await_refreshers : List (ENode F) → Option (ENode F)
  await_refreshers [] = none
  await_refreshers (n ∷ later) =
      let rest = await_refreshers later in
      if not n.refresh_stopped && not n.trigger_stopped then rest else some n

  abbrev pub close_socket : Net → Option (ENode F) → Option (Host F)
  close_socket net none = none
  close_socket net (some n) =
      let closed = call (closes net.sock) (call wrlock net) in
      some (record { node = n; net = call unlock (record closed { sock = negsuc 0 }) })

  abbrev pub refreshers_after : List (ENode F) → Option (ENode F) → Option (ENode F)
  refreshers_after found none = none
  refreshers_after found (some n) = await_refreshers found

  -- `stop_tasks`, past `stop = true`: the states that its waits find.
  unfoldable pub stop_tasks : List (ENode F) → List (ENode F) → Net → Option (Host F)
  unfolding await_receivers await_refreshers call
  stop_tasks first second net = close_socket net (refreshers_after second (await_receivers first))

  abbrev pub poll_next :
      (ENode F → Option (List Timespec)) → Option (ENode F × Timespec) → Option (List Timespec)
  poll_next more none = none
  poll_next more (some (n, ts)) = polled ts (more n)

  -- `poll_timestamp`: the timestamps that it prints. `count` below 0 is no limit.
  unfoldable pub poll_timestamp : ℤ → ℤ → List (Poll F) → Option (List Timespec)
  unfolding get_timestamp
  poll_timestamp count i [] = none
  poll_timestamp count i (p ∷ more) =
      let rest = λ (n : ENode F). poll_timestamp count (i +ℤ pos 1) more in
      if (ltb_ℤ count (pos 0) || ltb_ℤ i count) && not p.stopping
      then poll_next rest (get_timestamp false p.mem_tsc p.found)
      else some []
