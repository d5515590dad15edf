-- ===== src/Server/Select.antt =====
-- src/server/mltiplex/select.c: the sets of sockets, and a round of `serverTick`, with `RoutineTick` and
-- `handleConnection` as src/server has them. A set is the test `FD_ISSET`. `none` is a read or write out of bounds.
pub mod Sets
mod Tests
use newth.Prelude.{
  ℕ, zero, suc, max, Bool, true, false, Option, none, some, List, [], ◌∷◌, ◌++◌, ◌==◌, map,
  if◌then◌else◌, Bytes, length, ltb,
}
use newth.Platform.Socket.{Net}
use newth.Platform.Receive.{Inbound}
use newth.Server.Routine.{Routine, find_socket}
use newth.Server.Routine.Tick.{Multiplex}
use newth.Server.Routine.Tick.Rounds.{Entry, Ticked, delete_entry, routine_tick}
use newth.Server.Handlers.{FileSystem, Served}
use newth.Server.Handlers.Receiving.{handle_connection}

abbrev pub FdSet : Type 0
FdSet = ℕ → Bool

-- The static variables of the file
pub record Sockets : Type 0 where
  pub server_listen_sockets : FdSet
  pub server_read_sockets : FdSet
  pub server_write_sockets : FdSet
  pub server_max_socket : ℕ

-- `FD_SET` and `FD_CLR`
unfoldable pub fd_set : ℕ → FdSet → FdSet
fd_set socket set s = if s == socket then true else set s

unfoldable pub fd_clr : ℕ → FdSet → FdSet
fd_clr socket set s = if s == socket then false else set s

-- The loop of `GetFdSetAsArray` over `n` sockets from `i` on
unfoldable pub sockets_from : FdSet → ℕ → ℕ → List ℕ
sockets_from set i zero = []
sockets_from set i (suc n) =
    let rest = sockets_from set (suc i) n in if set i then i ∷ rest else rest

-- `serverGetReadSocketArray`, without the count in front
unfoldable pub server_get_read_socket_array : Sockets → List ℕ
unfolding sockets_from
server_get_read_socket_array sockets =
    sockets_from sockets.server_read_sockets 0 (suc sockets.server_max_socket)

-- `fdSetToSocketArray`
unfoldable pub fd_set_to_socket_array : List ℕ → FdSet → FdSet
unfolding fd_set
fd_set_to_socket_array [] set = set
fd_set_to_socket_array (socket ∷ array) set = fd_set_to_socket_array array (fd_set socket set)

unfoldable pub greatest : List ℕ → ℕ → ℕ
greatest [] m = m
greatest (socket ∷ array) m = greatest array (max m socket)

-- `serverSetup`; the set of the listening sockets is not emptied.
unfoldable pub server_setup : List ℕ → Sockets → Sockets
unfolding fd_set_to_socket_array greatest
server_setup array sockets = record {
  server_listen_sockets = fd_set_to_socket_array array sockets.server_listen_sockets;
  server_read_sockets = fd_set_to_socket_array array (λ s. false);
  server_write_sockets = λ s. false;
  server_max_socket = greatest array sockets.server_max_socket;
}

-- `FD_SETSIZE` of the GNU library
abbrev pub fd_setsize : ℕ
fd_setsize = 1024

-- `serverDeferredSocketAdd`, `serverDeferredSocketRemove` and `serverDeferredSocketExists` on the write set. They are
-- called for the sockets of routines, which were accepted and are below `fd_setsize`.
abbrev pub select_multiplex : Multiplex FdSet
select_multiplex = record {
  server_deferred_socket_add = fd_set;
  server_deferred_socket_remove = fd_clr;
  server_deferred_socket_exists = λ socket set. set socket;
}

-- What the system does, on a state `S`: `platformAcceptConnection`, where -1 is `none`; what `recv` and `send` of a
-- connection show; and `CLOSE_SOCKET`.
pub record System (S : Type 0) : Type 0 where
  pub accept_connection : ℕ → S → Option ℕ × S
  pub connection : ℕ → S → Inbound × Net × S
  pub close_socket : ℕ → S → S

pub record World (S : Type 0) : Type 0 where
  pub sockets : Sockets
  pub array : List Entry
  pub rest : S

-- `RoutineArrayDelSocket`
unfoldable pub delete_socket : ℕ → List Entry → List Entry
unfolding find_socket delete_entry
delete_socket socket array = elim (find_socket (map (λ e. e.routine) array) socket 0) [
  | none ↦ array
  | some i ↦ delete_entry array i
]

-- A routine of `handleConnection` stands behind those that are there, with what its socket shows.
abbrev pub with_routines : Net → List Routine → List Entry → List Entry
with_routines net routines array = array ++ map (λ r. record { routine = r; net = net }) routines

module _ {S : Type 0} (system : System S) (fs : FileSystem) (sb_data_size : ℕ) (root : Bytes)
    (stays : ℕ → Bool) where
  unfoldable pub after_routines : World S → Option (Ticked FdSet) → Option (World S)
  after_routines world none = none
  after_routines world (some t) = some (record world {
    array = t.array;
    sockets = record world.sockets { server_write_sockets = t.deferred };
  })

  -- `if (globalRoutineArray.size) RoutineTick(&globalRoutineArray)`
  unfoldable pub run_routines : World S → Option (World S)
  unfolding after_routines
  run_routines world =
      let ticked =
        routine_tick select_multiplex sb_data_size stays world.array
          world.sockets.server_write_sockets in
      if length world.array == 0 then some world else after_routines world ticked

  -- The connection is closed where `handleConnection` returns an error.
  unfoldable pub after_handle : ℕ → World S → Option Served → Option (World S)
  unfolding fd_clr delete_socket
  after_handle i world none = none
  after_handle i world (some served) =
      let array = with_routines served.net served.routines world.array in
      if served.answer == 0
      then some (record world { array = array })
      else some (record {
        sockets = record world.sockets {
          server_read_sockets = fd_clr i world.sockets.server_read_sockets;
          server_write_sockets = fd_clr i world.sockets.server_write_sockets;
        };
        array = delete_socket i array;
        rest = system.close_socket i world.rest;
      })

  -- `FD_SET(clientSocket, &serverReadSockets)`: -1 and a socket that is too great are out of bounds.
  unfoldable pub after_accept : World S → Option ℕ × S → Option (World S)
  unfolding fd_set
  after_accept world (none, rest) = none
  after_accept world (some client_socket, rest) =
      if ltb client_socket fd_setsize
      then some (record world {
        sockets = record world.sockets {
          server_read_sockets = fd_set client_socket world.sockets.server_read_sockets;
          server_max_socket = max world.sockets.server_max_socket client_socket;
        };
        rest = rest;
      })
      else none

  unfoldable pub handle_ready : ℕ → World S → Option (World S)
  unfolding after_handle
  handle_ready i world =
      let (inbound, net, rest) = system.connection i world.rest in
      after_handle i (record world { rest = rest })
        (handle_connection fs sb_data_size i root inbound [] net)

  -- What `serverTick` does with a socket that is ready to be read
  unfoldable pub serve_read : ℕ → World S → Option (World S)
  unfolding handle_ready after_accept
  serve_read i world =
      if world.sockets.server_listen_sockets i
      then after_accept world (system.accept_connection i world.rest)
      else handle_ready i world

  unfoldable pub after_read : Bool → ℕ → Option (World S) → Option (World S)
  after_read ready_to_write i none = none
  after_read true i (some world) = some (record world {
    sockets = record world.sockets {
      server_write_sockets = fd_clr i world.sockets.server_write_sockets;
    };
  })
  after_read false i (some world) = some world

  unfoldable pub serve_socket : FdSet → FdSet → ℕ → World S → Option (World S)
  unfolding serve_read after_read
  serve_socket ready_to_read ready_to_write i world =
      after_read (ready_to_write i) i (if ready_to_read i then serve_read i world else some world)

  -- The loop of `serverTick` over `n` sockets from `i` on
  unfoldable pub serve_from : FdSet → FdSet → ℕ → ℕ → World S → Option (World S)
  unfolding serve_socket
  serve_from ready_to_read ready_to_write i zero world = some world
  serve_from ready_to_read ready_to_write i (suc n) world =
      elim (serve_socket ready_to_read ready_to_write i world) [
        | none ↦ none
        | some world' ↦ serve_from ready_to_read ready_to_write (suc i) n world'
      ]

  -- A round of `serverTick`, where `select` gives the two sets. No socket above the greatest one that `select` was asked
  -- for is ready, so that the loop ends there also where a greater one was accepted.
  unfoldable pub server_tick_round : (Sockets → FdSet × FdSet) → World S → Option (World S)
  unfolding run_routines serve_from
  server_tick_round select world = elim (run_routines world) [
    | none ↦ none
    | some w ↦
        let (ready_to_read, ready_to_write) = select w.sockets in
        serve_from ready_to_read ready_to_write 0 (suc w.sockets.server_max_socket) w
  ]
