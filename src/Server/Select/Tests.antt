-- ===== src/Server/Select/Tests.antt =====
-- Runs of the sets of sockets.
use newth.Prelude.{
  ℕ, ◌≡◌, refl, Bool, true, false, Option, none, some, List, [], ◌∷◌, ◌==◌, codes, arith,
}
use newth.Server.Handlers.{FileSystem}
use newth.Server.Handlers.Receiving.{handle_connection}
use newth.Server.Select.{FdSet, Sockets, System, World, server_setup, server_tick_round, greatest}
use newth.Server.Select.Sets.{
  RoundFault, Watched, server_setup-IsWatched, server_tick_round-Watched,
}

abbrev nothing : FdSet
nothing = λ s. false

abbrev no_sockets : Sockets
no_sockets = record {
  server_listen_sockets = nothing;
  server_read_sockets = nothing;
  server_write_sockets = nothing;
  server_max_socket = 0;
}

abbrev no_files : FileSystem
no_files = record {
  file_stat = λ path. none;
  file_open = λ path. none;
  dir_open = λ path. none;
  current_time = codes "Sun, 04 Feb 2024 04:05:06 GMT";
  time_get_from_http_str = λ date. none;
}

-- Each accepted connection is socket 7, whose peer has closed it. The sockets that the server closes are listed.
abbrev system : System (List ℕ)
system = record {
  accept_connection = λ i closed. (some 7, closed);
  connection = λ i closed.
      (record { replies = []; stream = [] }, record { replies = []; wire = [] }, closed);
  close_socket = λ i closed. i ∷ closed;
}

abbrev world : World (List ℕ)
world = record { sockets = server_setup (3 ∷ 4 ∷ []) no_sockets; array = []; rest = [] }

abbrev in_place : ℕ → Bool
in_place n = true

abbrev only : ℕ → Sockets → FdSet × FdSet
only socket sockets = (λ s. s == socket, nothing)

server_tick_round-Watched_example :
    Watched
      (RoundFault system no_files 512 (codes "/srv") in_place world)
      (server_tick_round system no_files 512 (codes "/srv") in_place (only 3) world)
unfolding greatest
server_tick_round-Watched_example =
    server_tick_round-Watched system no_files 512 (codes "/srv") in_place (only 3) world
      (server_setup-IsWatched (3 ∷ 4 ∷ []) no_sockets (λ s. refl) (omega arith))

abbrev again : Option (World (List ℕ)) → Option (World (List ℕ))
again none = none
again (some w) = server_tick_round system no_files 512 (codes "/srv") in_place (only 7) w

abbrev shown : Option (World (List ℕ)) → Option (Bool × ℕ × List ℕ)
shown none = none
shown (some w) = some (w.sockets.server_read_sockets 7, w.sockets.server_max_socket, w.rest)

accepted :
    shown (server_tick_round system no_files 512 (codes "/srv") in_place (only 3) world)
    ≡ some (true, 7, [])
unfolding server_tick_round server_setup
accepted = refl

closed :
    shown (again (server_tick_round system no_files 512 (codes "/srv") in_place (only 3) world))
    ≡ some (false, 7, 7 ∷ [])
unfolding server_tick_round server_setup handle_connection
closed = refl
