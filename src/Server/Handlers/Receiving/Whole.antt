-- ===== src/Server/Handlers/Receiving/Whole.antt =====
-- A request reaches `handlePath` whole, however the socket hands it out.
use newth.Prelude.{
  ℕ, suc, ◌+◌, ◌-◌, ◌<◌, ◌≤◌, ◌≡◌, refl, ap, ◌∙◌, min, true, false, List, [], ◌∷◌, ◌++◌, arith,
  Bytes, length, length-append, length-take, length-drop, take, drop, take_all, take-append-drop,
  append_assoc, leb, ltb, ◌⊎◌, inl, inr, if◌then◌else◌, take-add,
}
use newth.Platform.Socket.{Net, Reply}
use newth.Platform.Receive.{Inbound}
use newth.Server.Routine.{Routine}
use newth.Server.Routine.Directory.{bufsiz}
use newth.Server.Handlers.{FileSystem}
use newth.Server.Handlers.Receiving.{
  ends_head, Gathered, after_received, gather, answer_message, after_gather, handle_connection,
}

-- The calls that give nothing
abbrev pub waits : List Reply → ℕ
waits [] = 0
waits (Reply.would_block ∷ replies) = suc (waits replies)
waits (Reply.room m ∷ replies) = waits replies
waits (Reply.broken ∷ replies) = waits replies

-- None of the calls is an error.
abbrev pub IsSound : List Reply → Type 0
IsSound [] = Unit
IsSound (Reply.broken ∷ replies) = ⊥
IsSound (Reply.would_block ∷ replies) = IsSound replies
IsSound (Reply.room m ∷ replies) = IsSound replies

-- No part of `stream` completes the request before all of it does.
abbrev pub EndsLast : Bytes → Bytes → Type 0
EndsLast message stream =
    (ends_head (message ++ stream) ≡ true)
    × ((k : ℕ) → k < length stream → ends_head (message ++ take k stream) ≡ false)

order : (m n : ℕ) → (m < n) ⊎ (n ≤ m)
order m n = omega arith

after_received-some :
    (r : ℕ) (got message : Bytes) (go_on : ℕ → Gathered)
    → 0 < length got
    → length message < bufsiz - 1
    → after_received r got message go_on
      ≡ (if ends_head message then Gathered.message_of message else go_on 0)
unfolding after_received
after_received-some r [] message go_on h fits = absurd (omega arith)
after_received-some r (x ∷ got) message go_on h fits =
    let small : leb (bufsiz - 1) (length message) ≡ false = ground arith in rw small refl

after_received-part :
    (r : ℕ) (got message : Bytes) (go_on : ℕ → Gathered)
    → 0 < length got
    → length message < bufsiz - 1
    → ends_head message ≡ false
    → after_received r got message go_on ≡ go_on 0
after_received-part r got message go_on h fits part =
    after_received-some r got message go_on h fits ∙ rw part refl

after_received-last :
    (r : ℕ) (got message : Bytes) (go_on : ℕ → Gathered)
    → 0 < length got
    → length message < bufsiz - 1
    → ends_head message ≡ true
    → after_received r got message go_on ≡ Gathered.message_of message
after_received-last r got message go_on h fits whole =
    after_received-some r got message go_on h fits ∙ rw whole refl

-- What is received is a part of the stream, or all of it.
EndsLast-drop :
    (k : ℕ) (message stream : Bytes)
    → EndsLast message stream
    → EndsLast (message ++ take k stream) (drop k stream)
EndsLast-drop k message stream (whole, part) = (
  rw (append_assoc message (take k stream) (drop k stream), take-append-drop k stream) whole,
  λ j h.
      rw (append_assoc message (take k stream) (take j (drop k stream)), take-add k j stream)
        (part (k + j) (omega (arith, h, length-drop k stream))),
)

length-ends_head : (message : Bytes) → ends_head message ≡ true → 0 < length message
unfolding ends_head
length-ends_head [] e = absurd (ground (arith, e))
length-ends_head (x ∷ message) e = omega arith

gather-Whole :
    (replies : List Reply) (r : ℕ) (message stream : Bytes)
    → length (message ++ stream) < bufsiz - 1
    → 0 < length stream
    → EndsLast message stream
    → IsSound replies
    → r + waits replies < 50
    → gather replies r message stream ≡ Gathered.message_of (message ++ stream)
unfolding gather
gather-Whole [] r message stream fits more (whole, part) sound few =
    let all : take (bufsiz - length message - 1) stream ≡ stream =
      take_all _ stream (omega (arith, fits, length-append message stream)) in
    rw (all, gather) (after_received-last r stream (message ++ stream) _ more fits whole)
gather-Whole (Reply.room m ∷ replies) r message stream fits more ends sound few =
    let n = min (bufsiz - length message - 1) (suc m) in
    let total = length-append message stream in
    let size : length (take n stream) ≡ min n (length stream) = length-take n stream in
    let some_got : 0 < length (take n stream) = omega (arith, fits, total, size, more) in
    elim (order n (length stream)) [
      | inl less ↦
          let kept : (message ++ take n stream) ++ drop n stream ≡ message ++ stream =
            append_assoc message (take n stream) (drop n stream)
            ∙ ap (◌++◌ message) (take-append-drop n stream) in
          after_received-part r (take n stream) (message ++ take n stream) _ some_got
            (omega (arith, fits, total, size, length-append message (take n stream)))
            (ends.1 n less)
          ∙ gather-Whole replies 0 (message ++ take n stream) (drop n stream) (rw kept fits)
              (omega (arith, less, length-drop n stream)) (EndsLast-drop n message stream ends)
              sound (omega (arith, few))
          ∙ ap Gathered.message_of kept
      | inr all ↦
          rw (take_all n stream all)
            (after_received-last r stream (message ++ stream) _ more fits ends.0)
    ]
gather-Whole (Reply.would_block ∷ replies) r message stream fits more ends sound few =
    let on : ltb (r + 1) 50 ≡ true = ground (arith, few) in
    rw on (gather-Whole replies (r + 1) message stream fits more ends sound (omega (arith, few)))
gather-Whole (Reply.broken ∷ replies) r message stream fits more ends sound few = elim sound [ ]

-- A request of fewer than BUFSIZ - 1 bytes that ends with an empty line and has none at an earlier place: however many
-- bytes each call of `recv` finds, where none of the calls is an error and fewer than 50 find none, `handleConnection`
-- answers the whole request.
pub handle_connection-answer_message :
    (fs : FileSystem) (sb_data_size client_socket : ℕ) (root : Bytes) (inbound : Inbound)
    (routines : List Routine) (net : Net)
    → length inbound.stream < bufsiz - 1
    → EndsLast [] inbound.stream
    → IsSound inbound.replies
    → waits inbound.replies < 50
    → handle_connection fs sb_data_size client_socket root inbound routines net
      ≡ answer_message fs sb_data_size client_socket root inbound.stream routines net
unfolding handle_connection after_gather
handle_connection-answer_message fs sb_data_size client_socket root inbound routines net fits ends
      sound few =
    let whole =
      gather-Whole inbound.replies 0 [] inbound.stream fits (length-ends_head inbound.stream ends.0)
        ends sound (omega (arith, few)) in
    rw (whole, handle_connection) refl
