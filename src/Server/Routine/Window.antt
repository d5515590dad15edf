-- ===== src/Server/Routine/Window.antt =====
-- A file routine sends the bytes of its window, each once and in order.
use newth.Prelude.{
  ℕ, zero, suc, ◌+◌, ◌-◌, ◌≤◌, ◌<◌, ◌≡◌, refl, sym, ap, ◌∙◌, inl, inr, ◌⊎◌, true, false, min,
  Option, none, some, [], ◌∷◌, ◌++◌, append_assoc, arith, Bytes, length, length-append, length-take,
  take, take-nil, drop, drop-drop, ltb, ◌==◌,
}
use newth.Platform.Stream.{platform_memory_stream_seek, fread}
use newth.Platform.Socket.{Net}
use newth.Server.SendBuffer.{SendBuffer, send_buffer_write_data, soc_buf_err_fail}
use newth.Server.SendBuffer.Order.{pending, IsValid, Writes, send_buffer_write_data_lem}
use newth.Server.Routine.{Routine, after_file_write, after_file_read, file_routine_continue}

-- What is left of a window of `m` bytes, read in a part of `k` bytes at most.
take_rest :
    (k m : ℕ) (d : Bytes)
    → k ≤ m
    → take k d ++ take (m - length (take k d)) (drop (length (take k d)) d) ≡ take m d
take_rest zero m d h = ap (λ j. take j d) (omega arith)
take_rest (suc k) zero d h = absurd (omega arith)
take_rest (suc k) (suc m) [] h = take-nil _
take_rest (suc k) (suc m) (x ∷ d) h =
    let same : suc m - suc (length (take k d)) ≡ m - length (take k d) = omega arith in
    rw same (ap (◌∷◌ x) (take_rest k m d (omega arith)))

nil_of_length : (d : Bytes) → length d ≡ 0 → d ≡ []
nil_of_length [] e = refl
nil_of_length (x ∷ d) e = absurd (omega (arith, e))

-- The bytes of the file from its position to the end of the window.
abbrev pub bytes_to_end : Bytes → ℕ → ℕ → Bytes
bytes_to_end contents position end = take (end - position) (drop position contents)

abbrev pub window : Routine → Bytes
window self = bytes_to_end self.of_file.file.contents self.of_file.file.pos self.of_file.end

-- The file's position is in the window, and the send buffer is well formed.
abbrev pub IsValidRoutine : Routine → Type 0
IsValidRoutine self = (self.of_file.file.pos ≤ self.of_file.end) × IsValid self.socket_buffer

-- What is on the wire, kept, and still to be read.
abbrev pub delivery : Routine → Net → Bytes
delivery self net = (net.wire ++ pending self.socket_buffer) ++ window self

module _ (sb_data_size : ℕ) (size_pos : 0 < sb_data_size) where
  -- `got` is the next part of the window.
  abbrev Taken : Bytes → ℕ → ℕ → Bytes → Type 0
  Taken contents position end got =
      (got ++ bytes_to_end contents (position + length got) end
        ≡ bytes_to_end contents position end)
      × (position + length got ≤ end)

  Taken_lem :
      (contents : Bytes) (position end : ℕ) (got : Bytes)
      → position ≤ end
      → got ≡ take (min (end - position) sb_data_size) (drop position contents)
      → Taken contents position end got
  Taken_lem contents position end got h e =
      let k = min (end - position) sb_data_size in
      let d = drop position contents in
      let size : length got ≡ min k (length d) = ap length e ∙ length-take k d in
      let rest : bytes_to_end contents (position + length got) end
          ≡ take (end - position - length got) (drop (length got) d) =
        ap (λ j. take j (drop (position + length got) contents)) {x = end - (position + length got)}
          {y = end - position - length got} (omega arith)
        ∙ ap (take (end - position - length got))
            (sym (drop-drop position (length got) contents)) in
      (rw rest (rw e (take_rest k (end - position) d (omega arith))), omega (arith, size))

  abbrev pub Progress : Routine → ℕ → Routine → Type 0
  Progress self n self' =
      ((n ≡ 0)
        × (window self ≡ [])
        × (window self' ≡ [])
        × (self'.state ≡ record self.state { state_continue = false; state_flush = true })
        × (self'.socket_buffer ≡ self.socket_buffer))
      ⊎ ((n ≡ 0) × (self'.socket_buffer.options ≡ soc_buf_err_fail))
      ⊎ ((0 < n)
          × (length (window self') < length (window self))
          × (self'.state ≡ self.state)
          × (self'.socket_buffer.options ≡ self.socket_buffer.options))

  abbrev pub Continues : Routine → Net → Option (ℕ × Routine × Net) → Type 0
  Continues self net none = ⊥
  Continues self net (some (n, self', net')) =
      IsValidRoutine self'
      × (delivery self' net' ≡ delivery self net)
      × (self'.of_file.end ≡ self.of_file.end)
      × Progress self n self'

  after_file_write-Continues :
      (self : Routine) (got : Bytes) (net : Net) (r : ℕ × SendBuffer × Net)
      → IsValidRoutine self
      → 0 < length got
      → let file = self.of_file.file in
        Taken file.contents file.pos self.of_file.end got
        → Writes (net.wire ++ pending self.socket_buffer) got self.socket_buffer.options r
        → Continues self net (
            some
              (after_file_write self file.pos got (record file { pos = file.pos + length got }) r))
  unfolding after_file_write platform_memory_stream_seek
  after_file_write-Continues self got net (n, buffer, net') v p t w =
      let later =
        bytes_to_end self.of_file.file.contents (self.of_file.file.pos + length got)
          self.of_file.end in
      elim w.1 [
        | inl (count, same, order) ↦
            let all : ltb n (length got) ≡ false = ground (arith, count) in
            let size : length got + length later ≡ length (window self) =
              sym (length-append got later) ∙ ap length t.0 in
            rw all (
              (
                (t.1, w.0),
                ap (λ x. x ++ later) order
                    ∙ append_assoc (net.wire ++ pending self.socket_buffer) got later
                    ∙ ap (λ x. (net.wire ++ pending self.socket_buffer) ++ x) t.0,
                refl,
                inr (inr (omega (arith, count), omega (arith, size), refl, same)),
              ))
        | inr (fail, count, order) ↦
            let part : ltb n (length got) ≡ true = ground (arith, count) in
            let back : self.of_file.file.pos + n ≡ self.of_file.file.pos = omega (arith, count) in
            rw part (
              rw back ((v.0, w.0), ap (λ x. x ++ window self) order, refl, inr (inl (count, fail))))
      ]

  after_file_read-Continues :
      (self : Routine) (got : Bytes) (net : Net)
      → IsValidRoutine self
      → let file = self.of_file.file in
        got ≡ take (min (self.of_file.end - file.pos) sb_data_size) (drop file.pos file.contents)
        → Continues self net (
            some (
              after_file_read self file.pos (got, record file { pos = file.pos + length got }) net))
  unfolding after_file_read
  after_file_read-Continues self [] net v e =
      let file = self.of_file.file in
      let t = Taken_lem file.contents file.pos self.of_file.end [] v.0 e in
      let k = min (self.of_file.end - file.pos) sb_data_size in
      let d = drop file.pos file.contents in
      let none_read : min k (length d) ≡ 0 = sym (ap length e ∙ length-take k d) in
      let empty : window self ≡ [] =
        nil_of_length (window self)
          (length-take (self.of_file.end - file.pos) d ∙ omega (arith, none_read, size_pos)) in
      (
        (t.1, v.1),
        ap (λ x. (net.wire ++ pending self.socket_buffer) ++ x) t.0,
        refl,
        inl (refl, empty, t.0 ∙ empty, refl, refl),
      )
  after_file_read-Continues self (b ∷ got) net v e =
      let more : (length (b ∷ got) == 0) ≡ false = ground arith in
      rw (more, after_file_read)
        (after_file_write-Continues self (b ∷ got) net
          (send_buffer_write_data self.socket_buffer (b ∷ got) net) v (omega arith)
          (Taken_lem _ _ _ (b ∷ got) v.0 e)
          (send_buffer_write_data_lem self.socket_buffer (b ∷ got) net v.1))

  -- As long as the position of its file is in the window, `FileRoutineContinue` keeps it there and reads
  -- inside its buffer. What is on the wire, what the send buffer keeps and what is left of the window
  -- stay the same bytes together. A call ends the routine's turn at an empty window, marks the send buffer
  -- as failed, or sends or keeps at least one byte and makes the window smaller by that.
  pub file_routine_continue-Continues :
      (self : Routine) (net : Net)
      → IsValidRoutine self
      → Continues self net (file_routine_continue sb_data_size self net)
  unfolding file_routine_continue fread
  file_routine_continue-Continues self net v =
      let inside : ltb self.of_file.end self.of_file.file.pos ≡ false = ground (arith, v.0) in
      rw (inside, file_routine_continue) (after_file_read-Continues self _ net v refl)
