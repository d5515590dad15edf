-- ===== src/Platform/Receive.antt =====
-- A connected socket that is read from, as `recv` shows it. How much of the stream each call finds is a
-- list of replies; when none is left all of it is there, and behind its end the peer has closed.
use newth.Prelude.{ℕ, suc, min, List, [], ◌∷◌, Bytes, take, drop}
use newth.Platform.Socket.{Reply}

pub record Inbound : Type 0 where
  pub replies : List Reply
  pub stream : Bytes

-- What a call of `recv` returns once the socket does not block: some bytes, none of them where the peer
-- has closed, or an error.
pub data Received : Type 0 where
  received : Bytes → Received
  failed : Received

-- One call of `recv` that peeks, repeated while it would block. A reply `room m` finds `m + 1` bytes.
unfoldable pub peek_on : List Reply → Bytes → ℕ → Received × List Reply
peek_on [] stream n = (Received.received (take n stream), [])
peek_on (Reply.room m ∷ replies) stream n =
    (Received.received (take (min n (suc m)) stream), replies)
peek_on (Reply.would_block ∷ replies) stream n = peek_on replies stream n
peek_on (Reply.broken ∷ replies) stream n = (Received.failed, replies)

unfoldable pub recv_on : List Reply → Bytes → ℕ → Received × Inbound
recv_on [] stream n =
    (Received.received (take n stream), record { replies = []; stream = drop n stream })
recv_on (Reply.room m ∷ replies) stream n = (
  Received.received (take (min n (suc m)) stream),
  record { replies = replies; stream = drop (min n (suc m)) stream },
)
recv_on (Reply.would_block ∷ replies) stream n = recv_on replies stream n
recv_on (Reply.broken ∷ replies) stream n =
    (Received.failed, record { replies = replies; stream = stream })

-- `AppendWait` without and with `MSG_PEEK`; the first is also the call in `recvBufferAppend`.
unfoldable pub recv : ℕ → Inbound → Received × Inbound
unfolding recv_on
recv n inbound = recv_on inbound.replies inbound.stream n

unfoldable pub peek : ℕ → Inbound → Received × Inbound
unfolding peek_on
peek n inbound =
    let (got, replies) = peek_on inbound.replies inbound.stream n in
    (got, record inbound { replies = replies })
