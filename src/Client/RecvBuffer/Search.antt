-- ===== src/Client/RecvBuffer/Search.antt =====
-- src/client/recvbufr.c: the searches that read on until a token is there. Each round of their loops takes
-- a byte off the stream or returns, so the loops run on fuel above the length of the stream.
pub mod Progress
pub mod Fetch
use newth.Prelude.{
  ℕ, zero, suc, ◌+◌, ◌-◌, Bool, true, false, Option, none, some, ◌==◌, if◌then◌else◌, Bytes, length,
  ltb, leb,
}
use newth.Client.RecvBuffer.{
  RecvError, RecvBuffer, Appended, content, recv_buffer_find, recv_buffer_ditch,
}
use newth.Client.RecvBuffer.Append.{recv_buffer_append}

-- `if ((e = ...)) return e;` before what comes next; `none` is a read outside the data or too little fuel.
abbrev pub unless_error : Appended → (RecvBuffer → Option Appended) → Option Appended
unless_error (some e, self) next = some (some e, self)
unless_error (none, self) next = next self

abbrev pub and_then : Option Appended → (RecvBuffer → Option Appended) → Option Appended
and_then none next = none
and_then (some r) next = unless_error r next

abbrev pub loop_fuel : RecvBuffer → ℕ
loop_fuel self = suc (length self.inbound.stream)

module _ (sb_data_size : ℕ) where
  -- `if (!self->buffer) recvBufferAppend(self, SB_DATA_SIZE)`
  unfoldable pub append_first : RecvBuffer → Appended
  append_first self = elim self.buffer [
    | none ↦ recv_buffer_append sb_data_size self sb_data_size
    | some b ↦ (none, self)
  ]

  -- `while (self->len < len) recvBufferAppend(self, SB_DATA_SIZE)`
  unfoldable pub append_until : ℕ → ℕ → RecvBuffer → Option Appended
  append_until zero len self = none
  append_until (suc fuel) len self =
      let more =
        unless_error (recv_buffer_append sb_data_size self sb_data_size)
          (λ self'. append_until fuel len self') in
      if ltb (length (content self)) len then more else some (none, self)

  -- The last loop of `recvBufferFindAndFetch`
  unfoldable pub fetch_loop : ℕ → Bytes → ℕ → RecvBuffer → Option Appended
  fetch_loop zero token max self = none
  fetch_loop (suc fuel) token max self =
      let more = unless_error (recv_buffer_append sb_data_size self sb_data_size) (λ self'.
        let again = fetch_loop fuel token max self' in
        if ltb max (length (content self'))
        then some (some RecvError.err_exceeded_maximum_allowed_buffer_size, self')
        else again) in
      elim (recv_buffer_find self 0 token) [
        | none ↦ none
        | some none ↦ more
        | some (some i) ↦ some (none, self)
      ]

  -- `recvBufferFindAndFetch`
  unfoldable pub recv_buffer_find_and_fetch : RecvBuffer → Bytes → ℕ → Option Appended
  unfolding append_first append_until fetch_loop
  recv_buffer_find_and_fetch self token max =
      if ltb max (length token)
      then some (some RecvError.err_token_bigger_then_buffer_limits, self)
      else unless_error (append_first self) (λ s1.
        and_then (append_until (loop_fuel s1) (length token) s1) (λ s2.
          unless_error
            (if leb (length (content s2)) (length token)
              then recv_buffer_append sb_data_size s2 sb_data_size
              else (none, s2))
            (λ s3. fetch_loop (loop_fuel s3) token max s3)))

  -- What `recvBufferFindAndDitch` does with the place `o` of the token, when `d` bytes are ditched already
  unfoldable pub ditch_to : ℕ → ℕ → RecvBuffer → Option RecvError × ℕ × RecvBuffer
  ditch_to o d self = if ltb 1 o then (none, d + o, recv_buffer_ditch self o) else (none, d, self)

  -- The last loop of `recvBufferFindAndDitch`, with the bytes that are ditched already; an error gives none.
  unfoldable pub ditch_loop :
      ℕ → Bytes → ℕ → RecvBuffer → Option (Option RecvError × ℕ × RecvBuffer)
  unfolding ditch_to
  ditch_loop zero token d self = none
  ditch_loop (suc fuel) token d self =
      let read = recv_buffer_append sb_data_size self sb_data_size in
      let self' = read.1 in
      let len = length token in
      let excess = length (content self') - len in
      let less = ditch_loop fuel token (d + excess) (recv_buffer_ditch self' excess) in
      let same = ditch_loop fuel token d self' in
      let again : Option (Option RecvError × ℕ × RecvBuffer) =
        elim (recv_buffer_find self' 0 token) [
          | none ↦ none
          | some none ↦ if ltb len (length (content self')) then less else same
          | some (some o) ↦ some (ditch_to o d self')
        ] in
      elim (recv_buffer_find self 0 token) [
        | none ↦ none
        | some (some o) ↦ some (ditch_to o d self)
        | some none ↦ elim read.0 [ some e ↦ some (some e, d, self') | none ↦ again ]
      ]

  -- `recvBufferFindAndDitch`: an error, how much was ditched, and the buffer
  unfoldable pub recv_buffer_find_and_ditch :
      RecvBuffer → Bytes → Option (Option RecvError × ℕ × RecvBuffer)
  unfolding append_first append_until ditch_loop
  recv_buffer_find_and_ditch self token =
      let first = append_first self in
      elim first.0 [
        | some e ↦ some (some e, 0, first.1)
        | none ↦ elim (append_until (loop_fuel first.1) (length token) first.1) [
          | none ↦ none
          | some (some e, s) ↦ some (some e, 0, s)
          | some (none, s) ↦ ditch_loop (loop_fuel s) token 0 s
        ]
      ]
