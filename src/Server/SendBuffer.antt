-- ===== src/Server/SendBuffer.antt =====
-- src/server/sendbufr.c: bytes for a socket that may not take them yet. What `send` leaves over is
-- kept in a memory stream, and `idx` counts the bytes of it that are on the wire.
pub mod Order
pub mod Drain
mod Tests
use newth.Prelude.{
  ℕ, zero, suc, ◌+◌, ◌-◌, ◌<◌, Bool, true, false, Option, none, some, List, [], ◌∷◌, ◌++◌, Bytes,
  length, drop, ltb, leb, ◌==◌, if◌then◌else◌,
}
use newth.Platform.Stream.{
  Stream, Seek, platform_memory_stream_new, platform_memory_stream_seek, fread, fwrite,
}
use newth.Platform.Socket.{Net, Sent, send}

-- `enum SOC_BUF_OPT`
abbrev pub soc_buf_opt_extend : ℕ
soc_buf_opt_extend = 1

abbrev pub soc_buf_err_clear : ℕ
soc_buf_err_clear = 2

abbrev pub soc_buf_err_full : ℕ
soc_buf_err_full = 4

abbrev pub soc_buf_err_fail : ℕ
soc_buf_err_fail = 8

pub record SendBuffer : Type 0 where
  pub idx : ℕ
  pub buffer : Option Stream
  pub client_socket : ℕ
  pub options : ℕ

-- `sendBufferNew`
unfoldable pub send_buffer_new : ℕ → ℕ → SendBuffer
send_buffer_new client_socket options = record {
  idx = 0;
  buffer = none;
  client_socket = client_socket;
  options = options;
}

-- `sendBufferFailFree` closes the stream and leaves the fields as they are.
unfoldable pub send_buffer_fail_free : SendBuffer → Option Stream
send_buffer_fail_free self = self.buffer

abbrev pub Flushed : Type 0
Flushed = ℕ × SendBuffer × Net

-- What `sendBufferFlush` does with the result of `send`, for `read` bytes from stream `s`; `next`
-- is the next round of the loop.
unfoldable pub after_send :
    Sent × Net → ℕ → SendBuffer → Stream → ℕ → (SendBuffer → ℕ → Net → Flushed) → Flushed
after_send (Sent.try_again, net) read self s n next = (n, record self { buffer = some s }, net)
after_send (Sent.failed, net) read self s n next =
    (0, record self { buffer = some s; options = soc_buf_err_fail }, net)
after_send (Sent.sent flush, net) read self s n next =
    if ltb flush read
    then (
      n + flush,
      record self {
        buffer = some (platform_memory_stream_seek s (Seek.back_from_current (read - flush)));
        idx = self.idx + flush;
      },
      net,
    )
    else next (record self { idx = self.idx + flush }) (n + flush) net

module _ (sb_data_size : ℕ) where
  -- The loop of `sendBufferFlush` on stream `s`, with `n` bytes flushed so far. Each round takes at
  -- least one byte of the stream or returns, so fuel above the stream's length is enough.
  unfoldable pub flush_loop : ℕ → SendBuffer → Stream → ℕ → Net → Flushed
  unfolding after_send
  flush_loop zero self s n net = (n, record self { buffer = some s }, net)
  flush_loop (suc fuel) self s n net =
      let (block, s') = fread sb_data_size s in
      elim (length block == 0) [
        | true ↦ (n, record self { buffer = none; idx = 0 }, net)
        | false ↦
            after_send (send net block) (length block) self s' n
              (λ self' n' net'. flush_loop fuel self' s' n' net')
      ]

  -- `sendBufferFlush`
  unfoldable pub send_buffer_flush : SendBuffer → Net → Flushed
  unfolding flush_loop
  send_buffer_flush self net = elim self.buffer [
    | none ↦ (0, self, net)
    | some s ↦
        flush_loop (suc (length s.contents)) self
          (platform_memory_stream_seek s (Seek.from_start self.idx)) 0 net
  ]

-- The rest of `sendBufferWriteData` where there is no stream: what was not sent goes to a new one.
unfoldable pub keep_rest : SendBuffer → Bytes → ℕ → Net → Flushed
keep_rest self bytes n net =
    if ltb n (length bytes)
    then (
      n + length (drop n bytes),
      record self { buffer = some (fwrite (drop n bytes) platform_memory_stream_new) },
      net,
    )
    else (n, self, net)

unfoldable pub direct_send : SendBuffer → Bytes → Sent × Net → Flushed
unfolding keep_rest
direct_send self bytes (Sent.try_again, net) = keep_rest self bytes 0 net
direct_send self bytes (Sent.failed, net) = (0, record self { options = soc_buf_err_fail }, net)
direct_send self bytes (Sent.sent n, net) = keep_rest self bytes n net

-- `sendBufferWriteData`
unfoldable pub send_buffer_write_data : SendBuffer → Bytes → Net → Flushed
unfolding direct_send
send_buffer_write_data self bytes net = elim self.buffer [
  | none ↦ direct_send self bytes (send net bytes)
  | some s ↦ (
    length bytes,
    record self { buffer = some (fwrite bytes (platform_memory_stream_seek s Seek.from_end)) },
    net,
  )
]

-- `sendBufferWriteText`
unfoldable pub send_buffer_write_text : SendBuffer → Bytes → Net → Flushed
unfolding send_buffer_write_data
send_buffer_write_text self text net = send_buffer_write_data self text net

-- `sendBufferGetBuffer`
unfoldable pub send_buffer_get_buffer : SendBuffer → SendBuffer
send_buffer_get_buffer self = elim self.buffer [
  | none ↦ record self { buffer = some platform_memory_stream_new }
  | some s ↦ record self { buffer = some (platform_memory_stream_seek s Seek.from_end) }
]

-- `sendBufferPrintf` with the text that the format and its arguments give. Where there is no stream
-- the text is first formatted into `max` bytes; `none` is a write past their end.
unfoldable pub send_buffer_printf : SendBuffer → ℕ → Bytes → Net → Option Flushed
unfolding send_buffer_write_text
send_buffer_printf self max text net = elim self.buffer [
  | none ↦
      if ltb (length text) max
      then (let (n, self', net') = send_buffer_write_text self text net in
          some (length text, self', net'))
      else none
  | some s ↦ some (
    length text,
    record self { buffer = some (fwrite text (platform_memory_stream_seek s Seek.from_end)) },
    net,
  )
]
