-- ===== src/Server/Routine/Array.antt =====
-- The array of routines holds one routine for a socket.
use newth.Prelude.{
  ℕ, suc, ◌+◌, ◌≡◌, ◌≢◌, refl, sym, ap, ◌∙◌, inl, inr, true, false, Bool-cases, none, some,
  Option-cases, List, [], ◌∷◌, ◌++◌, arith, take, drop, ◌==◌, if◌then◌else◌,
}
use newth.Server.Routine.{
  Routine, find_socket, routine_array_add, routine_array_del_idx, routine_array_del_socket,
}

abbrev pub socket_of : Routine → ℕ
socket_of r = r.socket_buffer.client_socket

abbrev pub NoSocket : ℕ → List Routine → Type 0
NoSocket socket [] = Unit
NoSocket socket (r ∷ self) = (socket_of r ≢ socket) × NoSocket socket self

-- No two routines have the same socket.
abbrev pub OneForSocket : List Routine → Type 0
OneForSocket [] = Unit
OneForSocket (r ∷ self) = NoSocket (socket_of r) self × OneForSocket self

-- The routines of the other sockets
abbrev pub others : ℕ → List Routine → List Routine
others socket [] = []
others socket (r ∷ self) =
    if socket_of r == socket then others socket self else r ∷ others socket self

others-NoSocket :
    (self : List Routine) (socket : ℕ) → NoSocket socket self → others socket self ≡ self
others-NoSocket [] socket h = refl
others-NoSocket (r ∷ self) socket h =
    let apart : (socket_of r == socket) ≡ false = ground (arith, h.0) in
    rw (apart, others) (ap (◌∷◌ r) (others-NoSocket self socket h.1))

find_socket-none :
    (self : List Routine) (socket k : ℕ) → find_socket self socket k ≡ none → NoSocket socket self
unfolding find_socket
find_socket-none [] socket k e = tt
find_socket-none (r ∷ self) socket k e = elim (Bool-cases (socket_of r == socket)) [
  | inl t ↦
      let value : find_socket (r ∷ self) socket k ≡ some k = rw t refl in absurd (cc (value, e))
  | inr t ↦
      let value : find_socket (r ∷ self) socket k ≡ find_socket self socket (suc k) = rw t refl in
      (ground (arith, t), find_socket-none self socket (suc k) (sym value ∙ e))
]

del_idx-others :
    (self : List Routine) (socket k i : ℕ)
    → OneForSocket self
    → find_socket self socket k ≡ some i
    → (j : ℕ) × (i ≡ k + j) × (take j self ++ drop (suc j) self ≡ others socket self)
unfolding find_socket
del_idx-others [] socket k i h e = absurd cc
del_idx-others (r ∷ self) socket k i h e = elim (Bool-cases (socket_of r == socket)) [
  | inl t ↦
      let value : find_socket (r ∷ self) socket k ≡ some k = rw t refl in
      let same : k ≡ i = cc (value, e) in
      let here : socket_of r ≡ socket = ground (arith, t) in
      (0, omega (arith, same), rw t (sym (others-NoSocket self socket (rw (sym here) h.0))))
  | inr t ↦
      let value : find_socket (r ∷ self) socket k ≡ find_socket self socket (suc k) = rw t refl in
      let (j, same, rest) = del_idx-others self socket (suc k) i h.1 (sym value ∙ e) in
      (suc j, omega (arith, same), rw t (ap (◌∷◌ r) rest))
]

-- `RoutineArrayDelSocket` on an array without two routines for one socket leaves just the routines of
-- the other sockets, in their order.
pub routine_array_del_socket-others :
    (self : List Routine) (socket : ℕ)
    → OneForSocket self
    → routine_array_del_socket self socket ≡ others socket self
unfolding routine_array_del_socket routine_array_del_idx
routine_array_del_socket-others self socket h = elim (Option-cases (find_socket self socket 0)) [
  | inl e ↦
      rw (e, routine_array_del_socket)
        (sym (others-NoSocket self socket (find_socket-none self socket 0 e)))
  | inr (i, e) ↦
      let (j, same, rest) = del_idx-others self socket 0 i h e in
      let here : i ≡ j = omega (arith, same) in rw (e, routine_array_del_socket) (rw here rest)
]

NoSocket-append :
    (self : List Routine) (r : Routine) (socket : ℕ)
    → NoSocket socket self
    → socket_of r ≢ socket
    → NoSocket socket (self ++ (r ∷ []))
NoSocket-append [] r socket h k = (k, tt)
NoSocket-append (x ∷ self) r socket h k = (h.0, NoSocket-append self r socket h.1 k)

OneForSocket-append :
    (self : List Routine) (r : Routine)
    → OneForSocket self
    → NoSocket (socket_of r) self
    → OneForSocket (self ++ (r ∷ []))
OneForSocket-append [] r h k = (tt, tt)
OneForSocket-append (x ∷ self) r h k = (
  NoSocket-append self r (socket_of x) h.0 (λ e. k.0 (sym e)),
  OneForSocket-append self r h.1 k.1,
)

others-append :
    (self : List Routine) (r : Routine)
    → NoSocket (socket_of r) self
    → others (socket_of r) (self ++ (r ∷ [])) ≡ self
others-append [] r k = let same : (socket_of r == socket_of r) ≡ true = ground arith in rw same refl
others-append (x ∷ self) r k =
    let apart : (socket_of x == socket_of r) ≡ false = ground (arith, k.0) in
    rw (apart, others) (ap (◌∷◌ x) (others-append self r k.1))

-- A routine for a new socket keeps the array at one routine for a socket, and deleting by its socket
-- gives back the array as it was.
pub routine_array_del_socket-add :
    (self : List Routine) (r : Routine)
    → OneForSocket self
    → NoSocket (socket_of r) self
    → OneForSocket (routine_array_add self r)
      × (routine_array_del_socket (routine_array_add self r) (socket_of r) ≡ self)
unfolding routine_array_add
routine_array_del_socket-add self r h k =
    let one = OneForSocket-append self r h k in
    (
      one,
      routine_array_del_socket-others (self ++ (r ∷ [])) (socket_of r) one ∙ others-append self r k,
    )
