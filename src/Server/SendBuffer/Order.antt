-- ===== src/Server/SendBuffer/Order.antt =====
-- The send buffer is a queue in front of the wire: no byte is lost, repeated or overtaken.
use newth.Prelude.{
  ℕ, zero, suc, ◌+◌, ◌≤◌, ◌<◌, ◌≡◌, refl, sym, ap, ◌∙◌, Option, none, some, List, [], ◌∷◌, ◌++◌,
  ◌⊎◌, inl, inr, arith, Bool-cases, Bytes, length, drop, take, length-take, take-length-take,
  take-take, drop-drop, take-append-drop, eq-nil_of_take, length-append, length-drop, append_assoc,
  append-nil, drop-append_le, ltb, ◌==◌, drop-nil, take_all, drop_all,
}
use newth.Platform.Stream.{
  Stream, platform_memory_stream_new, platform_memory_stream_seek, fread, fwrite,
}
use newth.Platform.Socket.{Net, Sent, Reply, answer, send}
use newth.Server.SendBuffer.{
  SendBuffer, after_send, flush_loop, send_buffer_flush, keep_rest, direct_send,
  send_buffer_write_data, Flushed, soc_buf_err_fail,
}

-- What the buffer still holds for the wire.
abbrev pub unsent : Option Stream → ℕ → Bytes
unsent none idx = []
unsent (some s) idx = drop idx s.contents

abbrev pub pending : SendBuffer → Bytes
pending self = unsent self.buffer self.idx

abbrev pub IsValidAt : Option Stream → ℕ → Type 0
IsValidAt none idx = idx ≡ 0
IsValidAt (some s) idx = idx ≤ length s.contents

-- `idx` counts bytes of the stream, and is 0 where there is none.
abbrev pub IsValid : SendBuffer → Type 0
IsValid self = IsValidAt self.buffer self.idx

-- One call of `send` puts a prefix of its bytes on the wire.
abbrev Takes : Bytes → Bytes → Sent → Bytes → Type 0
Takes wire bytes (Sent.sent n) wire' = (wire' ≡ wire ++ take n bytes) × (n ≤ length bytes)
Takes wire bytes Sent.try_again wire' = wire' ≡ wire
Takes wire bytes Sent.failed wire' = wire' ≡ wire

answer-Takes :
    (replies : List Reply) (wire bytes : Bytes)
    → let (r, net) = answer replies wire bytes in Takes wire bytes r net.wire
unfolding answer
answer-Takes [] wire bytes = refl
answer-Takes (Reply.room n ∷ rest) wire bytes =
    (ap (◌++◌ wire) (sym (take-length-take n bytes)), omega (arith, length-take n bytes))
answer-Takes (Reply.would_block ∷ rest) wire bytes = refl
answer-Takes (Reply.broken ∷ rest) wire bytes = refl

-- The traffic after an operation, from wire `wire` with `rest` still to go, and `n` bytes counted.
record Delivers (wire rest : Bytes) (n options : ℕ) (out : Flushed) : Type 0 where
  order : out.2.wire ++ pending out.1 ≡ wire ++ rest
  valid : IsValid out.1
  count :
      ((out.1.options ≡ options) × (length out.2.wire + n ≡ length wire + out.0))
      ⊎ ((out.1.options ≡ soc_buf_err_fail) × (out.0 ≡ 0))

-- What went onto the wire and what is left make up what there was.
advance :
    (wire wire' c block : Bytes) (idx k : ℕ)
    → take (length block) (drop idx c) ≡ block
    → k ≤ length block
    → wire' ≡ wire ++ take k block
    → wire' ++ drop (idx + k) c ≡ wire ++ drop idx c
advance wire wire' c block idx k is_block le e =
    let same : take k block ≡ take k (drop idx c) =
      rw (← is_block) (take-take k (length block) (drop idx c) le) in
    rw (e, same, append_assoc, ← drop-drop idx k c, take-append-drop)

-- The bytes on the wire grow by what `send` took.
length_of_take :
    (wire wire' block : Bytes) (k : ℕ)
    → wire' ≡ wire ++ take k block
    → k ≤ length block
    → length wire' ≡ length wire + k
length_of_take wire wire' block k e le =
    omega (arith, ap length e, length-append wire (take k block), length-take k block)

Delivers-trans :
    {wire wire' rest rest' : Bytes} {n options : ℕ} {out : Flushed} (k : ℕ)
    → wire' ++ rest' ≡ wire ++ rest
    → length wire' ≡ length wire + k
    → Delivers wire' rest' (n + k) options out
    → Delivers wire rest n options out
Delivers-trans k e f d = record { order = d.order ∙ e; valid = d.valid; count = ground arith }

module _ (wire : Bytes) (net : Net) (self : SendBuffer) (s : Stream) (n : ℕ) (block : Bytes) where
  after_send-Delivers :
      (r : Sent) (next : SendBuffer → ℕ → Net → Flushed)
      → Takes wire block r net.wire
      → take (length block) (drop self.idx s.contents) ≡ block
      → self.idx + length block ≤ length s.contents
      → Delivers net.wire
          (drop (self.idx + length block) s.contents)
          (n + length block)
          self.options
          (next (record self { idx = self.idx + length block }) (n + length block) net)
      → Delivers wire
          (drop self.idx s.contents)
          n
          self.options
          (after_send (r, net) (length block) self s n next)
  unfolding after_send
  after_send-Delivers Sent.try_again next t is_block le ih = record {
    order = ap (λ w. w ++ drop self.idx s.contents) t;
    valid = omega arith;
    count = inl (refl, rw t);
  }
  after_send-Delivers Sent.failed next t is_block le ih = record {
    order = ap (λ w. w ++ drop self.idx s.contents) t;
    valid = omega arith;
    count = inr (refl, refl);
  }
  after_send-Delivers (Sent.sent k) next t is_block le ih =
      elim (Bool-cases (ltb k (length block))) [
        | inl part ↦ rw part (
            Delivers-trans k (advance wire net.wire s.contents block self.idx k is_block t.1 t.0)
              (length_of_take wire net.wire block k t.0 t.1)
              (record {
                order = unfold platform_memory_stream_seek in refl;
                valid = unfold platform_memory_stream_seek in omega arith;
                count = inl (refl, refl);
              }))
        | inr all ↦
            let e : k ≡ length block = ground arith in
            rw (all, e)
              (Delivers-trans (length block)
                (advance wire net.wire s.contents block self.idx (length block) is_block
                  (omega arith) (rw (← e) t.0))
                (length_of_take wire net.wire block (length block) (rw (← e) t.0) (omega arith)) ih)
      ]

abbrev pub fields : Option Stream → ℕ → ℕ → ℕ → SendBuffer
fields buffer idx client_socket options = record {
  idx = idx;
  buffer = buffer;
  client_socket = client_socket;
  options = options;
}

module _ (sb_data_size : ℕ) (size_pos : 0 < sb_data_size) where
  flush_loop-Delivers :
      (fuel : ℕ) (self : SendBuffer) (s : Stream) (n : ℕ) (net : Net)
      → s.pos ≡ self.idx
      → self.idx ≤ length s.contents
      → Delivers net.wire
          (drop self.idx s.contents)
          n
          self.options
          (flush_loop sb_data_size fuel self s n net)
  unfolding flush_loop fread send
  flush_loop-Delivers zero self s n net at_idx le = record {
    order = refl;
    valid = le;
    count = inl (refl, refl);
  }
  flush_loop-Delivers (suc fuel) self s n net at_idx le =
      let c = s.contents in
      let block = take sb_data_size (drop s.pos c) in
      let is_block : take (length block) (drop self.idx c) ≡ block =
        ap (λ i. take (length block) (drop i c)) (sym at_idx)
        ∙ take-length-take sb_data_size (drop s.pos c) in
      let fits : self.idx + length block ≤ length c =
        omega (arith, length-take sb_data_size (drop s.pos c), length-drop s.pos c) in
      elim (Bool-cases (length block == 0)) [
        | inl done ↦
            let gone : drop self.idx c ≡ [] =
              ap (λ i. drop i c) (sym at_idx)
              ∙ eq-nil_of_take sb_data_size (drop s.pos c) size_pos (ground (arith, done)) in
            rw (done, flush_loop)
              (record { order = rw gone; valid = refl; count = inl (refl, refl) })
        | inr more ↦
            let (r, net') = send net block in
            rw (more, flush_loop)
              (after_send-Delivers net.wire net' self (record s { pos = s.pos + length block }) n
                block r _ (answer-Takes net.replies net.wire block) is_block fits
                (flush_loop-Delivers fuel (record self { idx = self.idx + length block })
                  (record s { pos = s.pos + length block }) (n + length block) net' (omega arith)
                  fits))
      ]

  flush-Delivers :
      (buffer : Option Stream) (idx client_socket options : ℕ) (net : Net)
      → IsValidAt buffer idx
      → Delivers net.wire
          (unsent buffer idx)
          0
          options
          (send_buffer_flush sb_data_size (fields buffer idx client_socket options) net)
  unfolding send_buffer_flush platform_memory_stream_seek
  flush-Delivers none idx client_socket options net v = record {
    order = refl;
    valid = v;
    count = inl (refl, refl);
  }
  flush-Delivers (some s) idx client_socket options net v =
      flush_loop-Delivers (suc (length s.contents)) (fields (some s) idx client_socket options)
        (record s { pos = idx }) 0 net refl v

  -- `sendBufferFlush` on a valid buffer keeps it valid, and what is on the wire followed by what
  -- is pending stays the same text: no byte is lost, repeated or reordered, whatever `send` answers.
  -- Its result is the number of bytes that went onto the wire, or 0 with the failure flag set.
  pub send_buffer_flush_lem :
      (self : SendBuffer) (net : Net)
      → IsValid self
      → let (n, self', net') = send_buffer_flush sb_data_size self net in
        (net'.wire ++ pending self' ≡ net.wire ++ pending self)
        × IsValid self'
        × (((self'.options ≡ self.options) × (length net'.wire ≡ length net.wire + n))
            ⊎ ((self'.options ≡ soc_buf_err_fail) × (n ≡ 0)))
  send_buffer_flush_lem self net v =
      let d = flush-Delivers self.buffer self.idx self.client_socket self.options net v in
      (d.order, d.valid, ground (arith, d.count))

write_at_end :
    (c bytes : Bytes)
    → take (length c) c ++ (bytes ++ drop (length c + length bytes) c) ≡ c ++ bytes
write_at_end c bytes = rw (
  take_all (length c) c (omega arith),
  drop_all (length c + length bytes) c (omega arith),
  append-nil,
)

-- The effect of a write: the new buffer and wire, after `before` was written and `bytes` follow.
abbrev pub Writes : Bytes → Bytes → ℕ → Flushed → Type 0
Writes before bytes options (n, self', net') =
    IsValid self'
    × (((n ≡ length bytes)
          × (self'.options ≡ options)
          × (net'.wire ++ pending self' ≡ before ++ bytes))
        ⊎ ((self'.options ≡ soc_buf_err_fail) × (n ≡ 0) × (net'.wire ++ pending self' ≡ before)))

module _ (client_socket options : ℕ) (bytes : Bytes) where
  keep_rest-Writes :
      (wire : Bytes) (n : ℕ) (net : Net)
      → net.wire ≡ wire ++ take n bytes
      → n ≤ length bytes
      → Writes wire bytes options (keep_rest (fields none 0 client_socket options) bytes n net)
  unfolding keep_rest fwrite platform_memory_stream_new
  keep_rest-Writes wire n net t le = elim (Bool-cases (ltb n (length bytes))) [
    | inl part ↦
        rw (part, keep_rest)
          (
            omega arith,
            inl (
              omega (arith, length-drop n bytes),
              refl,
              rw (t, drop-nil, append-nil, append_assoc, take-append-drop),
            ),
          )
    | inr all ↦
        rw (all, keep_rest)
          (
            refl,
            inl (
              ground (arith, all),
              refl,
              rw (t, append-nil, take_all n bytes (ground (arith, all))),
            ),
          )
  ]

  direct_send-Writes :
      (wire : Bytes) (r : Sent) (net : Net)
      → Takes wire bytes r net.wire
      → Writes wire bytes options (direct_send (fields none 0 client_socket options) bytes (r, net))
  unfolding direct_send
  direct_send-Writes wire (Sent.sent n) net t = keep_rest-Writes wire n net t.0 t.1
  direct_send-Writes wire Sent.try_again net t =
      keep_rest-Writes wire 0 net (t ∙ sym (append-nil wire)) (omega arith)
  direct_send-Writes wire Sent.failed net t = (refl, inr (refl, refl, rw append-nil t))

  write_data-Writes :
      (buffer : Option Stream) (idx : ℕ) (net : Net)
      → IsValidAt buffer idx
      → Writes
          (net.wire ++ unsent buffer idx)
          bytes
          options
          (send_buffer_write_data (fields buffer idx client_socket options) bytes net)
  unfolding send_buffer_write_data platform_memory_stream_seek fwrite send
  write_data-Writes none idx net v =
      rw (v, append-nil)
        (direct_send-Writes net.wire (send net bytes).0 (send net bytes).1
          (answer-Takes net.replies net.wire bytes))
  write_data-Writes (some s) idx net v =
      let c = s.contents in
      rw (write_at_end c bytes) (
        omega (arith, length-append c bytes),
        inl (refl, refl, rw (drop-append_le idx c bytes v, append_assoc)),
      )

-- `sendBufferWriteData` on a valid buffer keeps it valid. Either it takes all of the bytes, which then
-- stand behind everything written before, and leaves the flags; or the socket failed: then the failure
-- flag is set, the result is 0 and no byte has moved.
pub send_buffer_write_data_lem :
    (self : SendBuffer) (bytes : Bytes) (net : Net)
    → IsValid self
    → Writes (net.wire ++ pending self) bytes self.options (send_buffer_write_data self bytes net)
send_buffer_write_data_lem self bytes net v =
    write_data-Writes self.client_socket self.options bytes self.buffer self.idx net v
