-- ===== src/Server/Http/Writer.antt =====
-- Code that writes through a send buffer, as a state monad. `none` is a write past the end of the
-- memory that `sendBufferPrintf` formats into.
pub mod Appends
use newth.Prelude.{ℕ, Option, none, some, Bytes}
use newth.Platform.Socket.{Net}
use newth.Server.SendBuffer.{
  SendBuffer, send_buffer_flush, send_buffer_write_text, send_buffer_printf,
}

pub record Connection : Type 0 where
  pub socket_buffer : SendBuffer
  pub net : Net

abbrev pub M : Type 0 → Type 0
M A = Connection → Option (A × Connection)

abbrev pub pure : {A : Type 0} → A → M A
pure a c = some (a, c)

infixl 5 ◌>>=◌ ◌>>◌
abbrev pub ◌>>=◌ : {A B : Type 0} → M A → (A → M B) → M B
◌>>=◌ m f c = elim (m c) [ none ↦ none | some (a, c') ↦ f a c' ]

abbrev pub ◌>>◌ : {A B : Type 0} → M A → M B → M B
m >> k = m >>= λ _. k

-- `sendBufferWriteText` and `sendBufferWriteData` on the connection's buffer
unfoldable pub write_text : Bytes → M ℕ
write_text text c =
    let (n, self, net) = send_buffer_write_text c.socket_buffer text c.net in
    some (n, record { socket_buffer = self; net = net })

unfoldable pub printf : ℕ → Bytes → M ℕ
printf max text c = elim (send_buffer_printf c.socket_buffer max text c.net) [
  | none ↦ none
  | some (n, self, net) ↦ some (n, record { socket_buffer = self; net = net })
]

unfoldable pub flush : ℕ → M ℕ
flush sb_data_size c =
    let (n, self, net) = send_buffer_flush sb_data_size c.socket_buffer c.net in
    some (n, record { socket_buffer = self; net = net })
