-- ===== src/Server/Http/Writer/Appends.antt =====
-- The postcondition of a writer: a text appended to the traffic of the connection.
use mathlib.Core.Path.{subst}
use newth.Prelude.{
  ℕ, ◌≤◌, ◌<◌, ◌≡◌, refl, sym, ap, ◌∙◌, ◌⊎◌, inl, inr, false, Option, none, some, [], ◌++◌,
  append-nil, append_assoc, arith, Bytes, length, ltb, lt→ltb,
}
use newth.Platform.Stream.{Stream}
use newth.Platform.Socket.{Net}
use newth.Server.SendBuffer.{
  Flushed, soc_buf_err_fail, send_buffer_write_data, send_buffer_write_text, send_buffer_printf,
}
use newth.Server.SendBuffer.Order.{
  fields, pending, IsValidAt, IsValid, Writes, send_buffer_write_data_lem, send_buffer_flush_lem,
}
use newth.Server.Http.Writer.{Connection, M, pure, ◌>>=◌, write_text, printf, flush}

-- What was sent and what waits to be sent.
abbrev pub traffic : Connection → Bytes
traffic c = c.net.wire ++ pending c.socket_buffer

-- From `c` the writer ends without a write out of bounds and with a valid buffer. Unless the socket
-- failed, exactly `text` has been appended to the traffic.
abbrev pub Appended : {A : Type 0} → Bytes → Connection → Option (A × Connection) → Type 0
Appended text c none = ⊥
Appended text c (some (_, c')) =
    IsValid c'.socket_buffer
    × ((c'.socket_buffer.options ≡ soc_buf_err_fail)
        ⊎ ((c'.socket_buffer.options ≡ c.socket_buffer.options) × (traffic c' ≡ traffic c ++ text)))

abbrev pub Appends : {A : Type 0} → Bytes → M A → Type 0
Appends text m = (c : Connection) → IsValid c.socket_buffer → Appended text c (m c)

pub pure-Appends : {A : Type 0} (a : A) → Appends [] (pure a)
pure-Appends a c v = (v, inr (refl, sym (append-nil _)))

pub Appended-trans :
    {B : Type 0} (text more : Bytes) (c c' : Connection) (o : Option (B × Connection))
    → (c'.socket_buffer.options ≡ soc_buf_err_fail)
      ⊎ ((c'.socket_buffer.options ≡ c.socket_buffer.options) × (traffic c' ≡ traffic c ++ text))
    → Appended more c' o
    → Appended (text ++ more) c o
Appended-trans text more c c' none h k = k
Appended-trans text more c c' (some (b, d)) h (w, inl failed) = (w, inl failed)
Appended-trans text more c c' (some (b, d)) (inl failed) (w, inr (same, t)) =
    (w, inl (same ∙ failed))
Appended-trans text more c c' (some (b, d)) (inr (same', t')) (w, inr (same, t)) =
    (w, inr (same ∙ same', t ∙ ap (λ x. x ++ more) t' ∙ append_assoc _ text more))

Appended-bind :
    {A B : Type 0} (text more : Bytes) (c : Connection) (o : Option (A × Connection)) (f : A → M B)
    → Appended text c o
    → ((a : A) → Appends more (f a))
    → Appended (text ++ more) c (elim o [ none ↦ none | some (a, c') ↦ f a c' ])
Appended-bind text more c none f h k = elim h [ ]
Appended-bind text more c (some (a, c')) f (v, h) k =
    Appended-trans text more c c' (f a c') h (k a c' v)

-- The rule for two writers in a row.
pub bind-Appends :
    {A B : Type 0} (text more : Bytes) (m : M A) (f : A → M B)
    → Appends text m
    → ((a : A) → Appends more (f a))
    → Appends (text ++ more) (m >>= f)
bind-Appends text more m f h k c v = Appended-bind text more c (m c) f (h c v) k

Writes-Appended :
    {A : Type 0} (a : A) (text : Bytes) (c : Connection) (out : Flushed)
    → Writes (traffic c) text c.socket_buffer.options out
    → Appended text c (some (a, record { socket_buffer = out.1; net = out.2 }))
Writes-Appended a text c out (v, inl (_, same, t)) = (v, inr (same, t))
Writes-Appended a text c out (v, inr (failed, _, _)) = (v, inl failed)

pub write_text-Appends : (text : Bytes) → Appends text (write_text text)
unfolding write_text send_buffer_write_text
write_text-Appends text c v =
    let out = send_buffer_write_data c.socket_buffer text c.net in
    Writes-Appended out.0 text c out (send_buffer_write_data_lem c.socket_buffer text c.net v)

module _ (max : ℕ) (text : Bytes) (idx client_socket options : ℕ) (net : Net) where
  abbrev formatted : Option Stream → Connection
  formatted buffer = record { socket_buffer = fields buffer idx client_socket options; net = net }

  abbrev written : Option Stream → Flushed
  written buffer = send_buffer_write_data (fields buffer idx client_socket options) text net

  printf-write :
      (buffer : Option Stream)
      → length text < max
      → printf max text (formatted buffer)
        ≡ some
            (length text, record { socket_buffer = (written buffer).1; net = (written buffer).2 })
  unfolding printf send_buffer_printf send_buffer_write_text send_buffer_write_data
  printf-write none fits = rw (lt→ltb _ _ fits, printf, send_buffer_printf)
  printf-write (some s) fits = refl

  printf-Appended :
      (buffer : Option Stream)
      → length text < max
      → IsValidAt buffer idx
      → Appended text (formatted buffer) (printf max text (formatted buffer))
  printf-Appended buffer fits v = rw (printf-write buffer fits) (
      Writes-Appended (length text) text (formatted buffer) (written buffer)
        (send_buffer_write_data_lem (fields buffer idx client_socket options) text net v))

  printf-none : max ≤ length text → printf max text (formatted none) ≡ none
  unfolding printf send_buffer_printf
  printf-none big =
      let over : ltb (length text) max ≡ false = ground arith in
      rw (over, printf, send_buffer_printf)

-- `sendBufferPrintf` into `max` bytes, where the text and its terminator fit.
pub printf-Appends : (max : ℕ) (text : Bytes) → length text < max → Appends text (printf max text)
printf-Appends max text fits c v =
    printf-Appended max text c.socket_buffer.idx c.socket_buffer.client_socket
      c.socket_buffer.options c.net c.socket_buffer.buffer fits v

-- A flush appends nothing.
pub flush-Appends : (sb_data_size : ℕ) → 0 < sb_data_size → Appends [] (flush sb_data_size)
unfolding flush
flush-Appends sb_data_size h c v =
    let (t, w, count) = send_buffer_flush_lem sb_data_size h c.socket_buffer c.net v in
    (w, ground (arith, t, count, append-nil (traffic c)))

pub bind_nil-Appends :
    {A B : Type 0} (text : Bytes) (m : M A) (f : A → M B)
    → Appends text m
    → ((a : A) → Appends [] (f a))
    → Appends text (m >>= f)
bind_nil-Appends text m f h k =
    subst (λ t. Appends t (m >>= f)) (append-nil text) (bind-Appends text [] m f h k)

-- A connection whose last write went out whole, so that there is no stream.
abbrev pub streamless : ℕ → ℕ → ℕ → Net → Connection
streamless idx client_socket options net = record {
  socket_buffer = fields none idx client_socket options;
  net = net;
}

-- There, a text that does not fit is written past the end of the memory.
pub printf_overflows :
    (max : ℕ) (text : Bytes) (idx client_socket options : ℕ) (net : Net)
    → max ≤ length text
    → printf max text (streamless idx client_socket options net) ≡ none
printf_overflows max text idx client_socket options net big =
    printf-none max text idx client_socket options net big
