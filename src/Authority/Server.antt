-- ===== src/Authority/Server.antt =====
-- trihard/time_authority/server.cpp: main. The sockets and the arguments are those of the process; what the
-- calls of the system return, and the order in which the threads run, is a list of events.
pub mod Buffer
pub mod Threads
pub mod Origins
use Prim.Native.String.{String}
use tri_ha_rd_higher_resilie.Base.{
  ℕ, zero, suc, Bool, true, false, ◌&&◌, not, List, [], ◌∷◌, ◌++◌, Option, none, some, ltb, leb,
  ◌==◌, if◌then◌else◌, length, take, drop,
}
use tri_ha_rd_higher_resilie.Base.Int.{ℤ, pos, ltb_ℤ}
use tri_ha_rd_higher_resilie.Base.Text.{atoi}
use tri_ha_rd_higher_resilie.Node.Cipher.{Aead}
use tri_ha_rd_higher_resilie.Authority.{Action, Readings, handle_msg}

-- The client's address and the status of the read are copied for the thread; of `buff` it gets the
-- address.
pub record Job : Type 0 where
  pub client : ℕ
  pub read_status : ℕ

-- The receive buffer of 1024 bytes, and the threads that have not run yet, in order of their start.
pub record Server : Type 0 where
  pub buff : List ℕ
  pub threads : List Job

-- `recvfrom` brings a datagram or fails, or the thread that was started as number `index` among
-- those that have not run runs, with its clock readings and the memory of its locals.
pub data Event : Type 0 where
  arrives : ℕ → List ℕ → Event
  read_fails : Event
  runs : ℕ → Readings → List ℕ → Event

-- What a thread does, and for whom.
pub record Handled : Type 0 where
  pub client : ℕ
  pub actions : List Action

-- The actions of the threads that ran, and whether `main` has exited, with its state.
pub data Outcome : Type 0 where
  continues : Server → List Handled → Outcome
  exits : Server → List Handled → Outcome

-- `recvfrom` writes at most 1024 bytes over the front of the buffer.
abbrev pub received : List ℕ → List ℕ
received datagram = take 1024 datagram

unfoldable pub accept : ℕ → List ℕ → Server → Server
accept client datagram s =
    let bytes = received datagram in
    record {
      buff = bytes ++ drop (length bytes) s.buff;
      threads = s.threads ++ (record { client = client; read_status = length bytes } ∷ []);
    }

unfoldable pub get_elem? : List Job → ℕ → Option Job
get_elem? [] i = none
get_elem? (j ∷ js) zero = some j
get_elem? (j ∷ js) (suc i) = get_elem? js i

unfoldable pub remove : List Job → ℕ → List Job
remove [] i = []
remove (j ∷ js) zero = js
remove (j ∷ js) (suc i) = j ∷ remove js i

abbrev pub prepend : List Handled → Outcome → Outcome
prepend h (continues s more) = continues s (h ++ more)
prepend h (exits s more) = exits s (h ++ more)

module _ (A : Aead) (key nonce : List ℕ) (netw_delay_ms : ℤ) where
  -- A thread reads the buffer when it runs.
  unfoldable pub run_thread : Job → Readings → List ℕ → Server → Handled
  unfolding handle_msg
  run_thread j r memory s = record {
    client = j.client;
    actions = handle_msg A key nonce netw_delay_ms r memory (take j.read_status s.buff);
  }

  abbrev pub run_found : Option Job → ℕ → Readings → List ℕ → Server → Server × List Handled
  run_found none i r memory s = (s, [])
  run_found (some j) i r memory s =
      (record s { threads = remove s.threads i }, run_thread j r memory s ∷ [])

  unfoldable pub run_one : ℕ → Readings → List ℕ → Server → Server × List Handled
  unfolding run_thread get_elem? remove
  run_one i r memory s = run_found (get_elem? s.threads i) i r memory s

  -- The loop of `main`, with the threads it starts.
  unfoldable pub serve : List Event → Server → Outcome
  unfolding accept run_one
  serve [] s = continues s []
  serve (arrives client datagram ∷ more) s = serve more (accept client datagram s)
  serve (read_fails ∷ more) s = exits s []
  serve (runs i r memory ∷ more) s =
      let (next, handled) = run_one i r memory s in prepend handled (serve more next)

-- How `main` gets to its loop: it reports a wrong usage or a failure, or it serves.
pub data Start : Type 0 where
  usage negative_delay socket_fails bind_fails : Start
  serves : ℤ → Start

-- `argv[1]`, if it is the only argument.
abbrev delay_of : List String → ℤ
delay_of (name ∷ (delay ∷ [])) = atoi delay
delay_of _ = pos 0

-- The tests before the loop, on the arguments and the results of `socket` and `bind`.
unfoldable pub start : List String → ℤ → Bool → Start
unfolding atoi
start argv fd binds =
    let netw_delay_ms = delay_of argv in
    if ltb 2 (length argv)
    then usage
    else if ltb_ℤ netw_delay_ms (pos 0)
    then negative_delay
    else if ltb_ℤ fd (pos 0)
    then socket_fails
    else if binds
    then serves netw_delay_ms
    else bind_fails
