-- ===== src/Platform/Socket.antt =====
-- A connected, non-blocking socket, as `send` shows it. The kernel is not part of the program: how
-- it answers each call is a list of replies that every function on a socket takes.
use newth.Prelude.{ℕ, List, [], ◌∷◌, ◌++◌, Bytes, length, take}

-- The answer to one call: how many bytes the kernel has room for, or an error.
pub data Reply : Type 0 where
  room : ℕ → Reply
  would_block : Reply
  broken : Reply

pub record Net : Type 0 where
  pub replies : List Reply
  pub wire : Bytes

-- What a call of `send` returns.
pub data Sent : Type 0 where
  sent : ℕ → Sent
  try_again : Sent
  failed : Sent

-- One call of `send`: the bytes that the kernel takes go onto the wire, in order. When no reply
-- is left the socket blocks.
unfoldable pub answer : List Reply → Bytes → Bytes → Sent × Net
answer [] wire bytes = (Sent.try_again, record { replies = []; wire = wire })
answer (Reply.room n ∷ rest) wire bytes =
    (Sent.sent (length (take n bytes)), record { replies = rest; wire = wire ++ take n bytes })
answer (Reply.would_block ∷ rest) wire bytes =
    (Sent.try_again, record { replies = rest; wire = wire })
answer (Reply.broken ∷ rest) wire bytes = (Sent.failed, record { replies = rest; wire = wire })

unfoldable pub send : Net → Bytes → Sent × Net
unfolding answer
send net bytes = answer net.replies net.wire bytes
