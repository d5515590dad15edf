-- ===== src/Server/SendBuffer/Drain.antt =====
-- A socket that takes whole blocks empties the send buffer in one flush.
use newth.Prelude.{
  ℕ, zero, suc, ◌+◌, ◌*◌, ◌≤◌, ◌<◌, ◌≡◌, refl, sym, ◌∙◌, Option, none, some, List, [], ◌∷◌, ◌++◌,
  true, false, inl, inr, arith, Bool-cases, Bytes, length, drop, take, length-take, length-drop,
  append-nil, ltb, ◌==◌,
}
use newth.Platform.Stream.{Stream, fread, platform_memory_stream_seek}
use newth.Platform.Socket.{Net, Reply, answer, send}
use newth.Server.SendBuffer.{SendBuffer, after_send, flush_loop, send_buffer_flush}
use newth.Server.SendBuffer.Order.{
  fields, unsent, pending, IsValidAt, IsValid, send_buffer_flush_lem,
}

-- Every answer of the kernel takes at least `size` bytes.
abbrev pub AllRoom : ℕ → List Reply → Type 0
AllRoom size [] = Unit
AllRoom size (Reply.room n ∷ rest) = (size ≤ n) × AllRoom size rest
AllRoom size (Reply.would_block ∷ rest) = ⊥
AllRoom size (Reply.broken ∷ rest) = ⊥

all_sent :
    {wire rest : Bytes} (buffer : Option Stream) (idx : ℕ)
    → buffer ≡ none
    → wire ++ unsent buffer idx ≡ rest
    → wire ≡ rest
all_sent {wire} none idx e h = sym (append-nil wire) ∙ h
all_sent (some s) idx e h = cc

module _ (sb_data_size : ℕ) (size_pos : 0 < sb_data_size) where
  flush_loop-none :
      (fuel : ℕ) (self : SendBuffer) (s : Stream) (n : ℕ) (replies : List Reply) (wire : Bytes)
      → s.pos ≤ length s.contents
      → length s.contents < fuel + s.pos
      → AllRoom sb_data_size replies
      → length s.contents ≤ s.pos + length replies * sb_data_size
      → (flush_loop sb_data_size fuel self s n (record { replies = replies; wire = wire })).1.buffer
        ≡ none
  unfolding flush_loop fread send answer after_send
  flush_loop-none zero self s n replies wire within_it enough room total = absurd (omega arith)
  flush_loop-none (suc fuel) self s n [] wire within_it enough room total =
      let nothing : length (take sb_data_size (drop s.pos s.contents)) ≡ 0 =
        omega
          (arith, length-take sb_data_size (drop s.pos s.contents), length-drop s.pos s.contents) in
      let done : (length (take sb_data_size (drop s.pos s.contents)) == 0) ≡ true =
        ground (arith, nothing) in
      rw (done, flush_loop)
  flush_loop-none (suc fuel) self s n (Reply.would_block ∷ rest) wire within_it enough room total =
      elim room [ ]
  flush_loop-none (suc fuel) self s n (Reply.broken ∷ rest) wire within_it enough room total =
      elim room [ ]
  flush_loop-none (suc fuel) self s n (Reply.room k ∷ rest) wire within_it enough room total =
      let block = take sb_data_size (drop s.pos s.contents) in
      let size = length-take sb_data_size (drop s.pos s.contents) in
      let left = length-drop s.pos s.contents in
      elim (Bool-cases (length block == 0)) [
        | inl done ↦ rw (done, flush_loop)
        | inr more ↦
            let whole : ltb (length (take k block)) (length block) ≡ false =
              ground (arith, length-take k block, size, left) in
            let some_read : 0 < length block = ground (arith, more) in
            rw (more, flush_loop)
              (rw (whole, after_send)
                (flush_loop-none fuel _ (record s { pos = s.pos + length block }) _ rest
                  (wire ++ take k block) (omega (arith, size, left)) (omega (arith, some_read))
                  room.1 (omega (arith, size, left, total))))
      ]

  flush-none :
      (buffer : Option Stream) (idx client_socket options : ℕ) (net : Net)
      → IsValidAt buffer idx
      → AllRoom sb_data_size net.replies
      → length (unsent buffer idx) ≤ length net.replies * sb_data_size
      → (send_buffer_flush sb_data_size (fields buffer idx client_socket options) net).1.buffer
        ≡ none
  unfolding send_buffer_flush platform_memory_stream_seek
  flush-none none idx client_socket options net v room total = refl
  flush-none (some s) idx client_socket options net v room total =
      flush_loop-none (suc (length s.contents)) (fields (some s) idx client_socket options)
        (record s { pos = idx }) 0 net.replies net.wire v (omega arith) room
        (omega (arith, length-drop idx s.contents))

  -- When every answer of `send` has room for a whole block and there are as many answers as blocks,
  -- one `sendBufferFlush` of a valid buffer puts all pending bytes on the wire and frees the stream.
  pub send_buffer_flush_drains :
      (self : SendBuffer) (net : Net)
      → IsValid self
      → AllRoom sb_data_size net.replies
      → length (pending self) ≤ length net.replies * sb_data_size
      → let (n, self', net') = send_buffer_flush sb_data_size self net in
        (self'.buffer ≡ none) × (net'.wire ≡ net.wire ++ pending self)
  send_buffer_flush_drains self net v room total =
      let gone = flush-none self.buffer self.idx self.client_socket self.options net v room total in
      let kept = (send_buffer_flush_lem sb_data_size size_pos self net v).0 in
      (gone, all_sent _ _ gone kept)
