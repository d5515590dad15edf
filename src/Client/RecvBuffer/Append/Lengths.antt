-- ===== src/Client/RecvBuffer/Append/Lengths.antt =====
-- `recvBufferAppend` without chunks: what it takes of the stream, and how the length is kept.
use mathlib.Core.Path.{subst}
use newth.Prelude.{
  ℕ, suc, ◌+◌, ◌≤◌, ◌<◌, ◌≡◌, refl, ap, ◌∙◌, ◌⊎◌, inl, inr, Bool, Bool-cases, true, false, Option,
  none, some, List, [], ◌∷◌, ◌++◌, arith, min, Bytes, length, length-take, take, drop, drop-nil,
  eq-nil_of_take, take-append-drop, leb,
}
use newth.Platform.Socket.{Reply}
use newth.Platform.Receive.{Inbound, Received, recv_on}
use newth.Client.RecvBuffer.{
  LengthMode, length_unknown, length_chunk, length_known, length_token, length_complete, RecvBuffer,
  content, data_increment, platform_string_find_needle_raw,
}

-- What was read and what is still to come.
abbrev pub arriving : RecvBuffer → Bytes
arriving self = content self ++ self.inbound.stream

abbrev pub HasRoomIn : Option Bytes → ℕ → Type 0
HasRoomIn none max = Unit
HasRoomIn (some b) max = length b ≤ max

-- The data are inside the allocation.
abbrev pub HasRoom : RecvBuffer → Type 0
HasRoom self = HasRoomIn self.buffer self.max

abbrev pub IsFound : Option ℕ → Type 0
IsFound none = ⊥
IsFound (some i) = Unit

-- How the mode goes on when `added` bytes came in and the data are `text`.
abbrev pub Counts : LengthMode → ℕ → Bytes → LengthMode → Type 0
Counts (length_unknown escape limit) added text mode = mode ≡ length_unknown (escape + added) limit
Counts (length_known escape total) added text mode =
    ((mode ≡ length_known (escape + added) total) × ((escape + added < total) ⊎ (added ≡ 0)))
    ⊎ ((mode ≡ length_complete) × (total ≤ escape + added) × (0 < added))
Counts (length_token token count) added text mode =
    (mode ≡ length_token token (count + added))
    ⊎ ((mode ≡ length_complete) × IsFound (platform_string_find_needle_raw text token))
Counts (length_chunk next total) added text mode = Unit
Counts length_complete added text mode = (mode ≡ length_complete) × (added ≡ 0)

-- The mode is one of those that `recvBufferAppend` reads without chunks.
abbrev pub IsPlain : LengthMode → Type 0
IsPlain (length_unknown escape limit) = Unit
IsPlain (length_known escape total) = Unit
IsPlain (length_token token count) = Unit
IsPlain (length_chunk next total) = ⊥
IsPlain length_complete = ⊥

-- The mode of data that have ended
abbrev pub IsEnded : LengthMode → Type 0
IsEnded (length_unknown escape limit) = limit ≤ escape
IsEnded length_complete = Unit
IsEnded _ = ⊥

-- One call of `recv` takes its bytes off the stream, and finds none only where the stream has ended.
abbrev pub Reads : ℕ → Bytes → Received × Inbound → Type 0
Reads n stream (Received.received got, inbound) =
    (got ++ inbound.stream ≡ stream) × (length got ≤ n) × (length got ≡ 0 → inbound.stream ≡ [])
Reads n stream (Received.failed, inbound) = inbound.stream ≡ stream

rest_of_nothing : (n : ℕ) (stream : Bytes) → 0 < n → length (take n stream) ≡ 0 → drop n stream ≡ []
rest_of_nothing n stream h e = rw (eq-nil_of_take n stream h e) (drop-nil n)

pub recv_on-Reads :
    (replies : List Reply) (stream : Bytes) (n : ℕ)
    → 0 < n
    → Reads n stream (recv_on replies stream n)
unfolding recv_on
recv_on-Reads [] stream n h =
    (take-append-drop n stream, omega (arith, length-take n stream), rest_of_nothing n stream h)
recv_on-Reads (Reply.room m ∷ replies) stream n h = (
  take-append-drop (min n (suc m)) stream,
  omega (arith, length-take (min n (suc m)) stream),
  rest_of_nothing (min n (suc m)) stream (omega arith),
)
recv_on-Reads (Reply.would_block ∷ replies) stream n h = recv_on-Reads replies stream n h
recv_on-Reads (Reply.broken ∷ replies) stream n h = refl

-- Nothing more is counted after the first bytes that end the data.
pub Counts-nothing : (mode : LengthMode) (text : Bytes) → IsPlain mode → Counts mode 0 text mode
Counts-nothing (length_unknown escape limit) text h = ap (λ n. length_unknown n limit) (omega arith)
Counts-nothing (length_known escape total) text h =
    inl (ap (λ n. length_known n total) (omega arith), inr refl)
Counts-nothing (length_token token count) text h = inl (ap (length_token token) (omega arith))
Counts-nothing (length_chunk next total) text h = tt
Counts-nothing length_complete text h = absurd h

-- The mode after `added` bytes that do not end the data
abbrev Goes : LengthMode → ℕ → LengthMode → Type 0
Goes (length_unknown escape limit) added mode = mode ≡ length_unknown (escape + added) limit
Goes (length_known escape total) added mode =
    (mode ≡ length_known (escape + added) total) × (escape + added < total)
Goes (length_token token count) added mode = mode ≡ length_token token (count + added)
Goes (length_chunk next total) added mode = ⊥
Goes length_complete added mode = ⊥

abbrev pub Steps : LengthMode → ℕ → Bytes → Bool × LengthMode → Type 0
Steps mode added text (true, mode') = Counts mode added text mode' × IsEnded mode'
Steps mode added text (false, mode') = Goes mode added mode'

pub data_increment-Steps :
    (mode : LengthMode) (text : Bytes) (added : ℕ)
    → IsPlain mode
    → 0 < added
    → Steps mode added text (data_increment mode text added)
unfolding data_increment
data_increment-Steps (length_unknown escape limit) text added h k =
    elim (Bool-cases (leb limit (escape + added))) [
      | inl done ↦ rw done (refl, ground (arith, done))
      | inr unfinished ↦ rw unfinished refl
    ]
data_increment-Steps (length_known escape total) text added h k =
    elim (Bool-cases (leb total (escape + added))) [
      | inl done ↦ rw done (inr (refl, ground (arith, done), k), tt)
      | inr unfinished ↦ rw unfinished (refl, ground (arith, unfinished))
    ]
data_increment-Steps (length_token token count) text added h k =
    by_search (platform_string_find_needle_raw text token) refl
  where
    by_search :
        (o : Option ℕ)
        → platform_string_find_needle_raw text token ≡ o
        → Steps (length_token token count) added text (elim o [
          | some i ↦ (true, length_complete)
          | none ↦ (false, length_token token (count + added))
        ])
    by_search none e = refl
    by_search (some i) e = (inr (refl, rw e tt), tt)
data_increment-Steps (length_chunk next total) text added h k = absurd h
data_increment-Steps length_complete text added h k = absurd h

pub Goes-IsPlain :
    (mode : LengthMode) (added : ℕ) (mode' : LengthMode) → Goes mode added mode' → IsPlain mode'
Goes-IsPlain (length_unknown escape limit) added mode' g = rw g tt
Goes-IsPlain (length_known escape total) added mode' g = rw g.0 tt
Goes-IsPlain (length_token token count) added mode' g = rw g tt
Goes-IsPlain (length_chunk next total) added mode' g = absurd g
Goes-IsPlain length_complete added mode' g = absurd g

pub Goes-Counts :
    (mode : LengthMode) (k : ℕ) (mode' : LengthMode) (added : ℕ) (text : Bytes)
    (mode'' : LengthMode)
    → Goes mode k mode'
    → Counts mode' added text mode''
    → Counts mode (k + added) text mode''
Goes-Counts (length_unknown escape limit) k mode' added text mode'' g c =
    let c' : Counts (length_unknown (escape + k) limit) added text mode'' =
      subst (λ m. Counts m added text mode'') g c in
    c' ∙ ap (λ n. length_unknown n limit) (omega arith)
Goes-Counts (length_known escape total) k mode' added text mode'' (g, l) c =
    let c' : Counts (length_known (escape + k) total) added text mode'' =
      subst (λ m. Counts m added text mode'') g c in
    elim c' [
      | inl (e, more) ↦
          inl (e ∙ ap (λ n. length_known n total) (omega arith), inl (omega (arith, more, l)))
      | inr (e, done, some_bytes) ↦ inr (e, omega (arith, done), omega (arith, some_bytes))
    ]
Goes-Counts (length_token token count) k mode' added text mode'' g c =
    let c' : Counts (length_token token (count + k)) added text mode'' =
      subst (λ m. Counts m added text mode'') g c in
    elim c' [ inl e ↦ inl (e ∙ ap (length_token token) (omega arith)) | inr found ↦ inr found ]
Goes-Counts (length_chunk next total) k mode' added text mode'' g c = absurd g
Goes-Counts length_complete k mode' added text mode'' g c = absurd g
