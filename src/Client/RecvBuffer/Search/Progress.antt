-- ===== src/Client/RecvBuffer/Search/Progress.antt =====
-- What each `recvBufferAppend` of a search does: no byte is lost, and without an error the stream gets shorter.
use newth.Prelude.{
  ℕ, ◌+◌, ◌≤◌, ◌<◌, ◌≡◌, refl, ap, ◌∙◌, ◌⊎◌, inl, inr, Option, none, some, arith, Bytes, length,
  length-append, false, true,
}
use newth.Platform.Receive.{Inbound}
use newth.Client.RecvBuffer.{
  RecvError, LengthMode, length_unknown, length_chunk, length_known, length_token, length_complete,
  RecvBuffer, Appended, content,
}
use newth.Client.RecvBuffer.Append.{recv_buffer_append}
use newth.Client.RecvBuffer.Append.Lengths.{arriving, HasRoom, Counts, IsPlain}
use newth.Client.RecvBuffer.Append.Loop.{Sound, EndsFor, recv_buffer_append-Sound}

-- The body is not encoded by chunks.
abbrev pub IsOpen : LengthMode → Type 0
IsOpen (length_chunk next total) = ⊥
IsOpen _ = Unit

abbrev pub Shorter : Option RecvError → RecvBuffer → RecvBuffer → Type 0
Shorter none self self' = length self'.inbound.stream < length self.inbound.stream
Shorter (some e) self self' = Unit

-- What holds of a buffer that `self` has become without a byte lost.
pub record Grown (self self' : RecvBuffer) : Type 0 where
  pub room : HasRoom self'
  pub kept : arriving self' ≡ arriving self
  pub grows : length (content self) ≤ length (content self')
  pub is_open : IsOpen self'.mode

pub Grown-refl : (self : RecvBuffer) → HasRoom self → IsOpen self.mode → Grown self self
Grown-refl self room h = record { room = room; kept = refl; grows = omega arith; is_open = h }

pub Grown-trans : (a b c : RecvBuffer) → Grown a b → Grown b c → Grown a c
Grown-trans a b c g h = record {
  room = h.room;
  kept = h.kept ∙ g.kept;
  grows = omega (arith, g.grows, h.grows);
  is_open = h.is_open;
}

Counts-IsOpen :
    (mode : LengthMode) (added : ℕ) (text : Bytes) (mode' : LengthMode)
    → IsPlain mode
    → Counts mode added text mode'
    → IsOpen mode'
Counts-IsOpen (length_unknown escape limit) added text mode' h c = rw c tt
Counts-IsOpen (length_known escape total) added text mode' h (inl c) = rw c.0 tt
Counts-IsOpen (length_known escape total) added text mode' h (inr c) = rw c.0 tt
Counts-IsOpen (length_token token count) added text mode' h (inl c) = rw c tt
Counts-IsOpen (length_token token count) added text mode' h (inr c) = rw c.0 tt
Counts-IsOpen (length_chunk next total) added text mode' h c = absurd h
Counts-IsOpen length_complete added text mode' h c = absurd h

shorter :
    (e : Option RecvError) (self self' : RecvBuffer) (added len : ℕ)
    → 0 < len
    → arriving self' ≡ arriving self
    → length (content self') ≡ length (content self) + added
    → EndsFor false len added self' e
    → Shorter e self self'
shorter (some e) self self' added len pos kept grown h = tt
shorter none self self' added len pos kept grown (p, q) =
    let total : length (arriving self') ≡ length (arriving self) = ap length kept in
    let before = length-append (content self) self.inbound.stream in
    let after = length-append (content self') self'.inbound.stream in
    let some_bytes : 0 < added = some_added p in
    omega (arith, total, before, after, grown, some_bytes)
  where
    some_added : (0 < added) ⊎ (false ≡ true) ⊎ (len ≡ 0) → 0 < added
    some_added (inl h) = h
    some_added (inr (inl h)) = cc
    some_added (inr (inr h)) = absurd (omega (arith, h, pos))

abbrev pub Advances : RecvBuffer → Appended → Type 0
Advances self (e, self') = Grown self self' × Shorter e self self'

module _ (sb_data_size : ℕ) (block : 0 < sb_data_size) where
  plain-Advances :
      (self : RecvBuffer) (r : Appended)
      → IsPlain self.mode
      → Sound false sb_data_size self r
      → Advances self r
  plain-Advances self (e, self') plain (room, kept, added, grown, le, counts, ends) = (
    record {
      room = room;
      kept = kept;
      grows = omega (arith, grown);
      is_open = Counts-IsOpen self.mode added (content self') self'.mode plain counts;
    },
    shorter e self self' added sb_data_size block kept grown ends,
  )

  mode-Advances :
      (buffer : Option Bytes) (max : ℕ) (mode : LengthMode) (inbound : Inbound)
      → let self : RecvBuffer = record {
        buffer = buffer;
        max = max;
        mode = mode;
        inbound = inbound;
      } in
        HasRoom self
        → IsOpen mode
        → Advances self (recv_buffer_append sb_data_size self sb_data_size)
  unfolding recv_buffer_append
  mode-Advances buffer max length_complete inbound room h = (Grown-refl _ room tt, tt)
  mode-Advances buffer max (length_chunk next total) inbound room h = absurd h
  mode-Advances buffer max (length_unknown escape limit) inbound room h =
      let self : RecvBuffer = record {
        buffer = buffer;
        max = max;
        mode = length_unknown escape limit;
        inbound = inbound;
      } in
      plain-Advances self _ tt
        (recv_buffer_append-Sound sb_data_size block self sb_data_size room tt)
  mode-Advances buffer max (length_known escape total) inbound room h =
      let self : RecvBuffer = record {
        buffer = buffer;
        max = max;
        mode = length_known escape total;
        inbound = inbound;
      } in
      plain-Advances self _ tt
        (recv_buffer_append-Sound sb_data_size block self sb_data_size room tt)
  mode-Advances buffer max (length_token token count) inbound room h =
      let self : RecvBuffer = record {
        buffer = buffer;
        max = max;
        mode = length_token token count;
        inbound = inbound;
      } in
      plain-Advances self _ tt
        (recv_buffer_append-Sound sb_data_size block self sb_data_size room tt)

  pub recv_buffer_append-Advances :
      (self : RecvBuffer)
      → HasRoom self
      → IsOpen self.mode
      → Advances self (recv_buffer_append sb_data_size self sb_data_size)
  recv_buffer_append-Advances self room h =
      mode-Advances self.buffer self.max self.mode self.inbound room h
