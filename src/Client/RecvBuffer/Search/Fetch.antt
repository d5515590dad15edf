-- ===== src/Client/RecvBuffer/Search/Fetch.antt =====
-- `recvBufferFindAndFetch` returns, and the token that it reports is there.
use newth.Prelude.{
  ℕ, zero, suc, ◌≤◌, ◌<◌, ◌≡◌, inl, inr, Bool-cases, Option, none, some, if◌then◌else◌, arith,
  Bytes, length, ltb, leb,
}
use newth.Platform.Receive.{Inbound}
use newth.Client.RecvBuffer.{RecvError, LengthMode, RecvBuffer, Appended, content, recv_buffer_find}
use newth.Client.RecvBuffer.Append.{recv_buffer_append}
use newth.Client.RecvBuffer.Append.Lengths.{HasRoom}
use newth.Client.RecvBuffer.Find.{First, recv_buffer_find-First}
use newth.Client.RecvBuffer.Search.{
  unless_error, and_then, loop_fuel, append_first, append_until, fetch_loop,
  recv_buffer_find_and_fetch,
}
use newth.Client.RecvBuffer.Search.Progress.{
  IsOpen, Grown, Grown-refl, Grown-trans, Advances, recv_buffer_append-Advances,
}

abbrev pub Post : (RecvBuffer → Type 0) → Option RecvError → RecvBuffer → Type 0
Post Q none self = Q self
Post Q (some e) self = Unit

-- No byte of `self` is lost, and without an error `Q` holds of the buffer.
abbrev pub After : RecvBuffer → (RecvBuffer → Type 0) → Appended → Type 0
After self Q (e, self') = Grown self self' × Post Q e self'

abbrev pub Returns : (Appended → Type 0) → Option Appended → Type 0
Returns P none = ⊥
Returns P (some r) = P r

-- The token is in the data.
abbrev pub Holds : Bytes → RecvBuffer → Type 0
Holds token self = (i : ℕ) × First (content self) token (some i)

abbrev Less : RecvBuffer → RecvBuffer → Type 0
Less b s =
    (length s.inbound.stream < length b.inbound.stream) × (length (content b) ≤ length (content s))

module _ (a : RecvBuffer) where
  unless_error-Returns :
      (T Q : RecvBuffer → Type 0) (r : Appended) (next : RecvBuffer → Option Appended)
      → After a T r
      → ((s : RecvBuffer) → Grown a s → T s → Returns (After a Q) (next s))
      → Returns (After a Q) (unless_error r next)
  unless_error-Returns T Q (some e, s) next h k = (h.0, tt)
  unless_error-Returns T Q (none, s) next h k = k s h.0 h.1

  and_then-Returns :
      (T Q : RecvBuffer → Type 0) (m : Option Appended) (next : RecvBuffer → Option Appended)
      → Returns (After a T) m
      → ((s : RecvBuffer) → Grown a s → T s → Returns (After a Q) (next s))
      → Returns (After a Q) (and_then m next)
  and_then-Returns T Q none next h k = absurd h
  and_then-Returns T Q (some r) next h k = unless_error-Returns T Q r next h k

  advanced : (b : RecvBuffer) (r : Appended) → Grown a b → Advances b r → After a (Less b) r
  advanced b (some e, s) g h = (Grown-trans a b s g h.0, tt)
  advanced b (none, s) g h = (Grown-trans a b s g h.0, (h.1, h.0.grows))

  module _ (sb_data_size : ℕ) (block : 0 < sb_data_size) where
    appended :
        (b : RecvBuffer)
        → Grown a b
        → After a (Less b) (recv_buffer_append sb_data_size b sb_data_size)
    appended b g =
        advanced b _ g (recv_buffer_append-Advances sb_data_size block b g.room g.is_open)

    append_until-Returns :
        (fuel len : ℕ) (b : RecvBuffer)
        → Grown a b
        → length b.inbound.stream < fuel
        → Returns (After a (λ s. len ≤ length (content s))) (append_until sb_data_size fuel len b)
    unfolding append_until
    append_until-Returns zero len b g l = absurd (omega (arith, l))
    append_until-Returns (suc fuel) len b g l = elim (Bool-cases (ltb (length (content b)) len)) [
      | inr enough ↦ rw enough (g, ground (arith, enough))
      | inl few ↦ rw few (
          unless_error-Returns (Less b) _ _ _ (appended b g)
            (λ s g' less. append_until-Returns fuel len s g' (omega (arith, l, less.0))))
    ]

    fetch_loop-Returns :
        (fuel max : ℕ) (token : Bytes) (b : RecvBuffer)
        → Grown a b
        → length b.inbound.stream < fuel
        → 2 ≤ length token
        → 0 < length (content b)
        → Returns (After a (Holds token)) (fetch_loop sb_data_size fuel token max b)
    unfolding fetch_loop
    fetch_loop-Returns zero max token b g l two some_data = absurd (omega (arith, l))
    fetch_loop-Returns (suc fuel) max token b g l two some_data =
        let (found, e, _, first) = recv_buffer_find-First b token some_data two in
        by_find found e first (λ s g' less.
          fetch_loop-Returns fuel max token s g' (omega (arith, l, less.0)) two
            (omega (arith, some_data, less.1)))
      where
        by_find :
            (found : Option ℕ)
            → recv_buffer_find b 0 token ≡ some found
            → First (content b) token found
            → ((s : RecvBuffer)
                → Grown a s
                → Less b s
                → Returns (After a (Holds token)) (fetch_loop sb_data_size fuel token max s))
            → Returns (After a (Holds token)) (fetch_loop sb_data_size (suc fuel) token max b)
        by_find (some i) e first again = rw (fetch_loop, e) (g, (i, first))
        by_find none e first again =
            rw (fetch_loop, e)
              (unless_error-Returns (Less b) (Holds token) _ _ (appended b g) (λ s g' less.
                elim (Bool-cases (ltb max (length (content s)))) [
                  | inl long ↦ rw long (g', tt)
                  | inr short ↦ rw short (again s g' less)
                ]))

append_first-After :
    (sb_data_size : ℕ) (block : 0 < sb_data_size) (buffer : Option Bytes) (max : ℕ)
    (mode : LengthMode) (inbound : Inbound)
    → let self : RecvBuffer = record {
      buffer = buffer;
      max = max;
      mode = mode;
      inbound = inbound;
    } in
      HasRoom self → IsOpen mode → After self (λ s. Unit) (append_first sb_data_size self)
unfolding append_first
append_first-After sb_data_size block none max mode inbound room h =
    let self : RecvBuffer = record { buffer = none; max = max; mode = mode; inbound = inbound } in
    weaken self _ (recv_buffer_append-Advances sb_data_size block self room h)
  where
    weaken : (self : RecvBuffer) (r : Appended) → Advances self r → After self (λ s. Unit {0}) r
    weaken self (none, s) a = (a.0, tt)
    weaken self (some e, s) a = (a.0, tt)
append_first-After sb_data_size block (some b) max mode inbound room h = (Grown-refl _ room h, tt)

-- With a token of two bytes at least and a body that is not in chunks, `recvBufferFindAndFetch` returns.
-- No byte is lost, and without an error the token is in the data.
pub recv_buffer_find_and_fetch-Returns :
    (sb_data_size : ℕ) (self : RecvBuffer) (token : Bytes) (max : ℕ)
    → 0 < sb_data_size
    → HasRoom self
    → IsOpen self.mode
    → 2 ≤ length token
    → Returns (After self (Holds token)) (recv_buffer_find_and_fetch sb_data_size self token max)
unfolding recv_buffer_find_and_fetch
recv_buffer_find_and_fetch-Returns sb_data_size self token max block room h two =
    elim (Bool-cases (ltb max (length token))) [
      | inl big ↦ rw big (Grown-refl self room h, tt)
      | inr fits ↦ rw fits (
          unless_error-Returns self (λ s. Unit {0}) (Holds token) _ _
            (append_first-After sb_data_size block self.buffer self.max self.mode self.inbound room
              h)
            (λ s1 g1 _.
              and_then-Returns self (λ s. length token ≤ length (content s)) (Holds token) _ _
                (append_until-Returns self sb_data_size block (loop_fuel s1) (length token) s1 g1
                  (omega arith))
                (λ s2 g2 enough.
                  unless_error-Returns self (λ s. length token ≤ length (content s)) (Holds token) _
                    _ (one_more s2 g2 enough)
                    (λ s3 g3 enough'.
                      fetch_loop-Returns self sb_data_size block (loop_fuel s3) max token s3 g3
                        (omega arith) two (omega (arith, enough', two))))))
    ]
  where
    longer :
        (s : RecvBuffer) (r : Appended)
        → length token ≤ length (content s)
        → After self (Less s) r
        → After self (λ t. length token ≤ length (content t)) r
    longer s (none, t) enough a = (a.0, omega (arith, a, enough))
    longer s (some e, t) enough a = a

    one_more :
        (s : RecvBuffer)
        → Grown self s
        → length token ≤ length (content s)
        → After self
            (λ t. length token ≤ length (content t))
            (if leb (length (content s)) (length token)
              then recv_buffer_append sb_data_size s sb_data_size
              else (none, s))
    one_more s g enough = elim (Bool-cases (leb (length (content s)) (length token))) [
      | inl short ↦ rw short (longer s _ enough (appended self sb_data_size block s g))
      | inr more ↦ rw more (g, enough)
    ]
