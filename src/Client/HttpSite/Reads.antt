-- ===== src/Client/HttpSite/Reads.antt =====
-- `httpSiteSchemeFileRead`: the bytes that it delivers are the next ones of the body.
use newth.Prelude.{
  ℕ, zero, suc, ◌+◌, ◌-◌, ◌≤◌, ◌<◌, ◌≡◌, refl, sym, ap, ◌∙◌, ◌⊎◌, inl, inr, Bool-cases, true, false,
  Option, none, some, [], ◌∷◌, ◌++◌, ◌==◌, if◌then◌else◌, append_assoc, arith, Bytes, length,
  length-drop, length-take, take, drop, take-append-drop, ltb,
}
use newth.Platform.Receive.{Inbound}
use newth.Client.RecvBuffer.{
  RecvError, LengthMode, length_unknown, length_chunk, length_known, length_token, length_complete,
  RecvBuffer, Appended, content, recv_buffer_ditch,
}
use newth.Client.RecvBuffer.Append.{recv_buffer_append}
use newth.Client.RecvBuffer.Append.Lengths.{arriving, HasRoom}
use newth.Client.RecvBuffer.Append.Loop.{Sound, EndsFor, recv_buffer_append-Sound}
use newth.Client.RecvBuffer.Search.Progress.{IsOpen}
use newth.Client.HttpSite.Body.{copy_and_ditch, goes_on, http_site_scheme_file_read}

-- Why a read may bring nothing
abbrev pub Over : ℕ → RecvBuffer → RecvBuffer → Type 0
Over size socket socket' =
    (size ≡ 0) ⊎ (socket.mode ≡ length_complete) ⊎ (socket'.inbound.stream ≡ [])

-- What was delivered and what is left are what was there; an error leaves all.
abbrev pub Delivers : ℕ → RecvBuffer → Option Bytes × RecvBuffer → Type 0
Delivers size socket (none, socket') = arriving socket' ≡ arriving socket
Delivers size socket (some bytes, socket') =
    HasRoom socket'
    × (bytes ++ arriving socket' ≡ arriving socket)
    × (length bytes ≤ size)
    × ((0 < length bytes) ⊎ Over size socket socket')

abbrev Copied : ℕ → RecvBuffer → Bytes × RecvBuffer → Type 0
Copied n socket (bytes, socket') =
    HasRoom socket'
    × (bytes ++ content socket' ≡ content socket)
    × (length bytes ≡ n)
    × (socket'.inbound ≡ socket.inbound)

copied :
    (buffer : Option Bytes) (max : ℕ) (mode : LengthMode) (inbound : Inbound) (n : ℕ)
    → let socket : RecvBuffer = record {
      buffer = buffer;
      max = max;
      mode = mode;
      inbound = inbound;
    } in
      HasRoom socket → n ≤ length (content socket) → Copied n socket (copy_and_ditch socket n)
unfolding copy_and_ditch recv_buffer_ditch
copied buffer max mode inbound zero room h = (room, refl, refl, refl)
copied none max mode inbound (suc n) room h = absurd (omega (arith, h))
copied (some b) max mode inbound (suc n) room h =
    let size : length (take (suc n) b) ≡ suc n = omega (arith, length-take (suc n) b, h) in
    let some_bytes : (suc n == 0) ≡ false = ground arith in
    elim (Bool-cases (ltb (suc n) (length b))) [
      | inl less ↦
          rw (some_bytes, less)
            (omega (arith, room, length-drop (suc n) b), take-append-drop (suc n) b, size, refl)
      | inr all ↦
          rw (some_bytes, all)
            (
              tt,
              whole (drop (suc n) b) (take-append-drop (suc n) b)
                  (ground (arith, all, length-drop (suc n) b)),
              size,
              refl,
            )
    ]
  where
    whole : (rest : Bytes) → take (suc n) b ++ rest ≡ b → length rest ≡ 0 → take (suc n) b ++ [] ≡ b
    whole [] e q = e
    whole (x ∷ rest) e q = absurd (omega (arith, q))

delivered :
    (a socket : RecvBuffer) (size n : ℕ) (r : Bytes × RecvBuffer)
    → Copied n socket r
    → arriving socket ≡ arriving a
    → n ≤ size
    → (0 < n) ⊎ Over size a socket
    → Delivers size a (some r.0, r.1)
delivered a socket size n (bytes, s) (room, whole, count, same) kept le why = (
  room,
  sym (append_assoc bytes (content s) s.inbound.stream)
      ∙ ap (λ t. t ++ s.inbound.stream) whole
      ∙ ap (λ (i : Inbound). content socket ++ i.stream) same
      ∙ kept,
  omega (arith, count, le),
  why_of why,
)
  where
    why_of : (0 < n) ⊎ Over size a socket → (0 < length bytes) ⊎ Over size a s
    why_of (inl pos) = inl (omega (arith, pos, count))
    why_of (inr (inl z)) = inr (inl z)
    why_of (inr (inr (inl c))) = inr (inr (inl c))
    why_of (inr (inr (inr e))) = inr (inr (inr (ap (λ (i : Inbound). i.stream) same ∙ e)))

-- What is read once the buffer was asked for more.
after_append :
    (a : RecvBuffer) (size : ℕ) (e : Option RecvError) (s : RecvBuffer)
    → HasRoom s
    → arriving s ≡ arriving a
    → (goes_on e ≡ true → (0 < length (content s)) ⊎ Over size a s)
    → Delivers size a (
        let more =
          copy_and_ditch s (if ltb size (length (content s)) then size else length (content s)) in
        if goes_on e then (some more.0, more.1) else (none, s))
after_append a size e s room kept why = elim (Bool-cases (goes_on e)) [
  | inr stop ↦ rw stop kept
  | inl on ↦ elim (Bool-cases (ltb size (length (content s)))) [
    | inl big ↦
        rw (on, big)
          (delivered a s size size (copy_and_ditch s size)
            (copied s.buffer s.max s.mode s.inbound size room (ground (arith, big))) kept
            (omega arith) (size_of size))
    | inr fits ↦
        rw (on, fits)
          (delivered a s size (length (content s)) (copy_and_ditch s (length (content s)))
            (copied s.buffer s.max s.mode s.inbound (length (content s)) room (omega arith)) kept
            (ground (arith, fits)) (why on))
  ]
]
  where
    size_of : (n : ℕ) → (0 < n) ⊎ Over n a s
    size_of zero = inr (inl refl)
    size_of (suc n) = inl (omega arith)

why_of_end :
    (a s : RecvBuffer) (size len added : ℕ) (e : Option RecvError)
    → 0 < len
    → length (content s) ≡ length (content a) + added
    → EndsFor false len added s e
    → goes_on e ≡ true
    → (0 < length (content s)) ⊎ Over size a s
why_of_end a s size len added none pos grown (inl h, q) on = inl (omega (arith, h, grown))
why_of_end a s size len added none pos grown (inr (inl h), q) on = absurd (cc h)
why_of_end a s size len added none pos grown (inr (inr h), q) on = absurd (omega (arith, h, pos))
why_of_end a s size len added (some RecvError.err_no_data_to_be_retrieved) pos grown (f, z, q) on =
    inr (inr (inr q))
why_of_end a s size len added (some RecvError.socket_error) pos grown h on = absurd (cc on)
why_of_end a s size len added (some RecvError.err_request_completed) pos grown h on = absurd h
why_of_end a s size len added (some RecvError.err_no_buffered_data) pos grown h on = absurd h
why_of_end a s size len added (some RecvError.err_malformed_chunk_encoding) pos grown h on =
    absurd h
why_of_end a s size len added (some RecvError.err_illegal_hex_character) pos grown h on = absurd h
why_of_end a s size len added (some RecvError.err_token_bigger_then_buffer_limits) pos grown h on =
    absurd h
why_of_end a s size len added (some RecvError.err_exceeded_maximum_allowed_buffer_size) pos grown h
      on =
    absurd h

module _ (sb_data_size : ℕ) (block : 0 < sb_data_size) (size : ℕ) where
  More : RecvBuffer → Appended → Type 0
  More a (e, s) =
      HasRoom s
      × (arriving s ≡ arriving a)
      × (goes_on e ≡ true → (0 < length (content s)) ⊎ Over size a s)

  of_Sound :
      (a : RecvBuffer) (r : Appended)
      → length (content a) < size
      → Sound false (size - length (content a)) a r
      → More a r
  unfolding More
  of_Sound a (e, s) few (room, kept, added, grown, le, counts, ends) = (
    room,
    kept,
    why_of_end a s size (size - length (content a)) added e (omega (arith, few)) grown ends,
  )

  More-append :
      (buffer : Option Bytes) (max : ℕ) (mode : LengthMode) (inbound : Inbound)
      → let a : RecvBuffer = record {
        buffer = buffer;
        max = max;
        mode = mode;
        inbound = inbound;
      } in
        HasRoom a
        → IsOpen mode
        → length (content a) < size
        → More a (recv_buffer_append sb_data_size a (size - length (content a)))
  unfolding More recv_buffer_append
  More-append buffer max length_complete inbound room h few =
      (room, refl, λ on. inr (inr (inl refl)))
  More-append buffer max (length_chunk next total) inbound room h few = absurd h
  More-append buffer max (length_unknown escape limit) inbound room h few =
      let a : RecvBuffer = record {
        buffer = buffer;
        max = max;
        mode = length_unknown escape limit;
        inbound = inbound;
      } in
      of_Sound a (recv_buffer_append sb_data_size a (size - length (content a))) few
        (recv_buffer_append-Sound sb_data_size block a (size - length (content a)) room tt)
  More-append buffer max (length_known escape total) inbound room h few =
      let a : RecvBuffer = record {
        buffer = buffer;
        max = max;
        mode = length_known escape total;
        inbound = inbound;
      } in
      of_Sound a (recv_buffer_append sb_data_size a (size - length (content a))) few
        (recv_buffer_append-Sound sb_data_size block a (size - length (content a)) room tt)
  More-append buffer max (length_token token count) inbound room h few =
      let a : RecvBuffer = record {
        buffer = buffer;
        max = max;
        mode = length_token token count;
        inbound = inbound;
      } in
      of_Sound a (recv_buffer_append sb_data_size a (size - length (content a))) few
        (recv_buffer_append-Sound sb_data_size block a (size - length (content a)) room tt)

some_size : (a : RecvBuffer) (n : ℕ) → (0 < n) ⊎ Over n a a
some_size a zero = inr (inl refl)
some_size a (suc n) = inl (omega arith)

-- With data inside its memory, blocks that are not empty and a body that is not in chunks,
-- `httpSiteSchemeFileRead` delivers at most `size` bytes: they are the next ones of the body, and together
-- with what is then in the buffer and still to come they are what was there before, as all of it is after an
-- error. It delivers nothing only for a size of 0, in a request that was completed, or when the peer has closed.
pub http_site_scheme_file_read-Delivers :
    (sb_data_size : ℕ) (socket : RecvBuffer) (size : ℕ)
    → 0 < sb_data_size
    → HasRoom socket
    → IsOpen socket.mode
    → Delivers size socket (http_site_scheme_file_read sb_data_size socket size)
unfolding http_site_scheme_file_read More
http_site_scheme_file_read-Delivers sb_data_size socket size block room h =
    let read = recv_buffer_append sb_data_size socket (size - length (content socket)) in
    elim (Bool-cases (ltb (length (content socket)) size)) [
      | inr enough ↦ rw enough (
          delivered socket socket size size (copy_and_ditch socket size)
            (copied socket.buffer socket.max socket.mode socket.inbound size room
              (ground (arith, enough)))
            refl (omega arith) (some_size socket size))
      | inl few ↦
          let (room', kept, why) =
            More-append sb_data_size block size socket.buffer socket.max socket.mode socket.inbound
              room h (ground (arith, few)) in
          rw few (after_append socket size read.0 read.1 room' kept why)
    ]
