-- ===== src/Server/Select/Sets.antt =====
-- What stays true of the sets of sockets.
use newth.Prelude.{
  Option, none, some, Bytes, length, ltb, ◌<◌, ℕ, zero, suc, ◌≤◌, ◌≡◌, refl, sym, ap, ◌∙◌, max,
  Bool, true, false, List, [], ◌∷◌, ◌==◌, arith, Bool-cases, inl, inr, ◌⊎◌, if◌then◌else◌,
}
use mathlib.Core.Path.{fun_ext}
use newth.Server.Handlers.{FileSystem, Served}
use newth.Server.Handlers.Receiving.{handle_connection}
use newth.Server.Routine.Tick.Rounds.{Ticked, routine_tick}
use newth.Server.Select.{
  FdSet, Sockets, fd_set, fd_clr, fd_set_to_socket_array, greatest, server_setup, System, World,
  fd_setsize, select_multiplex, after_routines, run_routines, after_handle, after_accept,
  handle_ready, serve_read, after_read, serve_socket, serve_from, server_tick_round,
}

abbrev pub IsBelow : ℕ → FdSet → Type 0
IsBelow m set = (s : ℕ) → set s ≡ true → s ≤ m

-- Every listening socket is read from, and no socket that is read from is above the greatest one, up to which `select`
-- is asked and which a set can hold.
pub record IsWatched (sockets : Sockets) : Type 0 where
  pub listen_read :
      (s : ℕ) → sockets.server_listen_sockets s ≡ true → sockets.server_read_sockets s ≡ true
  pub read_below : IsBelow sockets.server_max_socket sockets.server_read_sockets
  pub within_set : sockets.server_max_socket < fd_setsize

if_false : (b x : Bool) → (if b then false else x) ≡ true → x ≡ true
if_false true x h = absurd (ground (arith, h))
if_false false x h = h

if_true : (b x : Bool) → (if b then true else x) ≡ true → (b ≡ true) ⊎ (x ≡ true)
if_true true x h = inl refl
if_true false x h = inr h

fd_set-kept : (socket s : ℕ) (set : FdSet) → set s ≡ true → fd_set socket set s ≡ true
unfolding fd_set
fd_set-kept socket s set h = elim (Bool-cases (s == socket)) [ inl e ↦ rw e refl | inr e ↦ rw e h ]

fd_clr-other :
    (socket s : ℕ) (set : FdSet) → (s == socket) ≡ false → set s ≡ true → fd_clr socket set s ≡ true
unfolding fd_clr
fd_clr-other socket s set e h = rw e h

fd_clr-member : (socket s : ℕ) (set : FdSet) → fd_clr socket set s ≡ true → set s ≡ true
unfolding fd_clr
fd_clr-member socket s set h = if_false (s == socket) (set s) h

fd_set-IsBelow :
    (socket m n : ℕ) (set : FdSet)
    → IsBelow m set
    → m ≤ n
    → socket ≤ n
    → IsBelow n (fd_set socket set)
unfolding fd_set
fd_set-IsBelow socket m n set below le fits s h = elim (if_true (s == socket) (set s) h) [
  | inl same ↦ ground (arith, same, fits)
  | inr other ↦ omega (arith, below s other, le)
]

fd_clr-IsBelow : (socket m : ℕ) (set : FdSet) → IsBelow m set → IsBelow m (fd_clr socket set)
fd_clr-IsBelow socket m set below s h = below s (fd_clr-member socket s set h)

-- A socket that listens is not the one whose connection is closed.
listening-other : (set : FdSet) (i s : ℕ) → set i ≡ false → set s ≡ true → (s == i) ≡ false
listening-other set i s deaf heard = elim (Bool-cases (s == i)) [
  | inl same ↦
      let e : s ≡ i = ground (arith, same) in
      let both : false ≡ true = sym deaf ∙ ap set (sym e) ∙ heard in absurd (ground (arith, both))
  | inr other ↦ other
]

-- A fault has the given cause, and else the sockets are watched.
abbrev pub Watched : {S : Type 0} → Type 0 → Option (World S) → Type 0
Watched Cause none = Cause
Watched Cause (some world) = IsWatched world.sockets

-- An accepted connection that `FD_SET` has no place for
abbrev pub IsOutside : Option ℕ → Type 0
IsOutside none = Unit
IsOutside (some client_socket) = fd_setsize ≤ client_socket

module _ {S : Type 0} (system : System S) (fs : FileSystem) (sb_data_size : ℕ) (root : Bytes)
    (stays : ℕ → Bool) where
  -- A connection that is accepted has no place, or `handleConnection` faults.
  abbrev pub ServeFault : Type 0
  ServeFault =
      ((i : ℕ) × (rest : S) × IsOutside (system.accept_connection i rest).0)
      ⊎ ((i : ℕ) × (world : World S) × (handle_ready system fs sb_data_size root stays i world
            ≡ none))

  abbrev pub RoundFault : World S → Type 0
  RoundFault world = (run_routines system fs sb_data_size root stays world ≡ none) ⊎ ServeFault

  after_routines-Watched :
      (world : World S) (o : Option (Ticked FdSet))
      → IsWatched world.sockets
      → Watched
          (after_routines system fs sb_data_size root stays world o ≡ none)
          (after_routines system fs sb_data_size root stays world o)
  unfolding after_routines
  after_routines-Watched world none w = refl
  after_routines-Watched world (some t) w = record {
    listen_read = w.listen_read;
    read_below = w.read_below;
    within_set = w.within_set;
  }

  run_routines-Watched :
      (world : World S)
      → IsWatched world.sockets
      → Watched
          (run_routines system fs sb_data_size root stays world ≡ none)
          (run_routines system fs sb_data_size root stays world)
  unfolding run_routines
  run_routines-Watched world w = elim (Bool-cases (length world.array == 0)) [
    | inl empty ↦ rw empty w
    | inr some_routines ↦ rw some_routines (
        after_routines-Watched world
          (routine_tick select_multiplex sb_data_size stays world.array
            world.sockets.server_write_sockets)
          w)
  ]

  after_handle-Watched :
      (i : ℕ) (world : World S) (o : Option Served)
      → world.sockets.server_listen_sockets i ≡ false
      → IsWatched world.sockets
      → Watched (o ≡ none) (after_handle system fs sb_data_size root stays i world o)
  unfolding after_handle
  after_handle-Watched i world none deaf w = refl
  after_handle-Watched i world (some served) deaf w = elim (Bool-cases (served.answer == 0)) [
    | inl good ↦ rw good w
    | inr bad ↦
        let sockets = world.sockets in
        let closed : IsWatched (record sockets {
          server_read_sockets = fd_clr i sockets.server_read_sockets;
          server_write_sockets = fd_clr i sockets.server_write_sockets;
        }) =
          record {
            listen_read = λ s h.
                fd_clr-other i s sockets.server_read_sockets
                  (listening-other sockets.server_listen_sockets i s deaf h) (w.listen_read s h);
            read_below =
                fd_clr-IsBelow i sockets.server_max_socket sockets.server_read_sockets w.read_below;
            within_set = w.within_set;
          } in
        rw bad closed
  ]

  after_accept-Watched :
      (world : World S) (r : Option ℕ × S)
      → IsWatched world.sockets
      → Watched (IsOutside r.0) (after_accept system fs sb_data_size root stays world r)
  unfolding after_accept
  after_accept-Watched world (none, rest) w = tt
  after_accept-Watched world (some client_socket, rest) w =
      elim (Bool-cases (ltb client_socket fd_setsize)) [
        | inl fits ↦
            let sockets = world.sockets in
            let greater = max sockets.server_max_socket client_socket in
            let added : IsWatched (record sockets {
              server_read_sockets = fd_set client_socket sockets.server_read_sockets;
              server_max_socket = greater;
            }) =
              record {
                listen_read = λ s h.
                    fd_set-kept client_socket s sockets.server_read_sockets (w.listen_read s h);
                read_below =
                    fd_set-IsBelow client_socket sockets.server_max_socket greater
                      sockets.server_read_sockets w.read_below (omega arith) (omega arith);
                within_set = ground (arith, fits, w.within_set);
              } in
            rw fits added
        | inr big ↦ rw big (ground (arith, big))
      ]

  Watched-map :
      (A B : Type 0) (o : Option (World S)) → Watched A o → (o ≡ none → A → B) → Watched B o
  Watched-map A B none w f = f refl w
  Watched-map A B (some world) w f = w

  handle_ready-Watched :
      (i : ℕ) (world : World S)
      → world.sockets.server_listen_sockets i ≡ false
      → IsWatched world.sockets
      → Watched ServeFault (handle_ready system fs sb_data_size root stays i world)
  handle_ready-Watched i world deaf w =
      let (inbound, net, rest) = system.connection i world.rest in
      let o = handle_connection fs sb_data_size i root inbound [] net in
      let watched : Watched (o ≡ none) (handle_ready system fs sb_data_size root stays i world) =
        unfold handle_ready in after_handle-Watched i (record world { rest = rest }) o deaf w in
      Watched-map (o ≡ none) ServeFault (handle_ready system fs sb_data_size root stays i world)
        watched λ fault _. inr (i, world, fault)

  serve_read-Watched :
      (i : ℕ) (world : World S)
      → IsWatched world.sockets
      → Watched ServeFault (serve_read system fs sb_data_size root stays i world)
  unfolding serve_read
  serve_read-Watched i world w = elim (Bool-cases (world.sockets.server_listen_sockets i)) [
    | inl listens ↦ rw listens (
        Watched-map (IsOutside (system.accept_connection i world.rest).0) ServeFault
          (after_accept system fs sb_data_size root stays world
            (system.accept_connection i world.rest))
          (after_accept-Watched world (system.accept_connection i world.rest) w)
          λ _ outside. inl (i, world.rest, outside))
    | inr deaf ↦ rw deaf (handle_ready-Watched i world deaf w)
  ]

  after_read-Watched :
      (ready : Bool) (i : ℕ) (o : Option (World S))
      → Watched ServeFault o
      → Watched ServeFault (after_read system fs sb_data_size root stays ready i o)
  unfolding after_read
  after_read-Watched ready i none w = w
  after_read-Watched false i (some world) w = w
  after_read-Watched true i (some world) w = record {
    listen_read = w.listen_read;
    read_below = w.read_below;
    within_set = w.within_set;
  }

  serve_socket-Watched :
      (ready_to_read ready_to_write : FdSet) (i : ℕ) (world : World S)
      → IsWatched world.sockets
      → Watched ServeFault
          (serve_socket system fs sb_data_size root stays ready_to_read ready_to_write i world)
  unfolding serve_socket
  serve_socket-Watched ready_to_read ready_to_write i world w =
      elim (Bool-cases (ready_to_read i)) [
        | inl ready ↦ rw ready (
            after_read-Watched (ready_to_write i) i
              (serve_read system fs sb_data_size root stays i world) (serve_read-Watched i world w))
        | inr idle ↦ rw idle (after_read-Watched (ready_to_write i) i (some world) w)
      ]

  and_then-Watched :
      (Cause : Type 0) (o : Option (World S)) (f : World S → Option (World S))
      → Watched Cause o
      → ((world : World S) → IsWatched world.sockets → Watched Cause (f world))
      → Watched Cause (elim o [ none ↦ none | some world ↦ f world ])
  and_then-Watched Cause none f w h = w
  and_then-Watched Cause (some world) f w h = h world w

  serve_from-Watched :
      (ready_to_read ready_to_write : FdSet) (i n : ℕ) (world : World S)
      → IsWatched world.sockets
      → Watched ServeFault
          (serve_from system fs sb_data_size root stays ready_to_read ready_to_write i n world)
  unfolding serve_from
  serve_from-Watched ready_to_read ready_to_write i zero world w = w
  serve_from-Watched ready_to_read ready_to_write i (suc n) world w =
      and_then-Watched ServeFault
        (serve_socket system fs sb_data_size root stays ready_to_read ready_to_write i world) _
        (serve_socket-Watched ready_to_read ready_to_write i world w)
        λ world' w'. serve_from-Watched ready_to_read ready_to_write (suc i) n world' w'

  -- A round of `serverTick`, with its call of `RoutineTick` and those of `handleConnection`, whatever `select` says is
  -- ready. It faults only if `RoutineTick` or a call of `handleConnection` does, or if an accept fails or gives a socket
  -- of FD_SETSIZE or more. Else it leaves every listening socket among those that are read from, and no socket that is
  -- read from above the greatest one, up to which the next `select` looks and which is below FD_SETSIZE.
  pub server_tick_round-Watched :
      (select : Sockets → FdSet × FdSet) (world : World S)
      → IsWatched world.sockets
      → Watched
          (RoundFault world)
          (server_tick_round system fs sb_data_size root stays select world)
  unfolding server_tick_round
  server_tick_round-Watched select world w =
      let first = run_routines system fs sb_data_size root stays world in
      and_then-Watched (RoundFault world) first _
        (Watched-map (first ≡ none) (RoundFault world) first (run_routines-Watched world w)
          λ _ fault. inl fault)
        λ world' w'.
          Watched-map ServeFault (RoundFault world)
            (serve_from system fs sb_data_size root stays (select world'.sockets).0
              (select world'.sockets).1 0 (suc world'.sockets.server_max_socket) world')
            (serve_from-Watched (select world'.sockets).0 (select world'.sockets).1 0
              (suc world'.sockets.server_max_socket) world' w')
            λ _ fault. inr fault

fd_set_to_socket_array-IsBelow :
    (array : List ℕ) (set : FdSet) (m : ℕ)
    → IsBelow m set
    → IsBelow (greatest array m) (fd_set_to_socket_array array set)
unfolding fd_set_to_socket_array greatest
fd_set_to_socket_array-IsBelow [] set m below = below
fd_set_to_socket_array-IsBelow (socket ∷ array) set m below =
    fd_set_to_socket_array-IsBelow array (fd_set socket set) (max m socket)
      (fd_set-IsBelow socket m (max m socket) set below (omega arith) (omega arith))

-- `serverSetup` of a server that has no sockets yet, on sockets that a set can hold
pub server_setup-IsWatched :
    (array : List ℕ) (sockets : Sockets)
    → ((s : ℕ) → sockets.server_listen_sockets s ≡ false)
    → greatest array sockets.server_max_socket < fd_setsize
    → IsWatched (server_setup array sockets)
unfolding server_setup
server_setup-IsWatched array sockets empty fits =
    let same : sockets.server_listen_sockets ≡ (λ s. false) = fun_ext empty in
    record {
      listen_read = λ s h. sym (ap (λ set. fd_set_to_socket_array array set s) same) ∙ h;
      read_below =
          fd_set_to_socket_array-IsBelow array (λ s. false) sockets.server_max_socket
            (λ s h. absurd (ground (arith, h)));
      within_set = fits;
    }
