-- ===== src/Client/RecvBuffer/Append/Loop.antt =====
-- The loop of `recvBufferAppend` without chunks: no byte is lost, and it ends for a reason.
use newth.Prelude.{
  ℕ, zero, suc, ◌+◌, ◌-◌, ◌≤◌, ◌<◌, ◌≡◌, refl, sym, ap, ◌∙◌, ◌⊎◌, inl, inr, Bool, Bool-cases, true,
  false, Option, none, some, [], ◌∷◌, ◌++◌, ◌==◌, if◌then◌else◌, append_assoc, arith, min, Bytes,
  length, length-append, ltb,
}
use newth.Platform.Receive.{Inbound, Received, recv}
use newth.Client.RecvBuffer.{
  RecvError, LengthMode, RecvBuffer, Appended, content, buffer_append, data_increment,
}
use newth.Client.RecvBuffer.Append.{after_recv, append_loop, recv_buffer_append}
use newth.Client.RecvBuffer.Append.Lengths.{
  arriving, HasRoom, Counts, IsPlain, IsEnded, Reads, Steps, recv_on-Reads, Counts-nothing,
  data_increment-Steps, Goes-IsPlain, Goes-Counts,
}

-- Why a call that read `added` of `len` bytes ended, where some were read already if `started`
abbrev pub EndsFor : Bool → ℕ → ℕ → RecvBuffer → Option RecvError → Type 0
EndsFor started len added self none =
    ((0 < added) ⊎ (started ≡ true) ⊎ (len ≡ 0))
    × ((added ≡ len) ⊎ IsEnded self.mode ⊎ (self.inbound.stream ≡ []))
EndsFor started len added self (some RecvError.err_no_data_to_be_retrieved) =
    (started ≡ false) × (added ≡ 0) × (self.inbound.stream ≡ [])
EndsFor started len added self (some RecvError.socket_error) = Unit
EndsFor started len added self (some _) = ⊥

abbrev pub Sound : Bool → ℕ → RecvBuffer → Appended → Type 0
Sound started len self (e, self') =
    HasRoom self'
    × (arriving self' ≡ arriving self)
    × (added : ℕ) × (length (content self') ≡ length (content self) + added)
    × (added ≤ len)
    × Counts self.mode added (content self') self'.mode
    × EndsFor started len added self' e

EndsFor-later :
    (started : Bool) (len k added : ℕ) (self : RecvBuffer) (e : Option RecvError)
    → k ≤ len
    → 0 < k
    → EndsFor true (len - k) added self e
    → EndsFor started len (k + added) self e
EndsFor-later started len k added self none h pos (p, inl e) =
    (inl (omega (arith, pos)), inl (omega (arith, h, e)))
EndsFor-later started len k added self none h pos (p, inr r) = (inl (omega (arith, pos)), inr r)
EndsFor-later started len k added self (some RecvError.err_no_data_to_be_retrieved) h pos r = cc
EndsFor-later started len k added self (some RecvError.socket_error) h pos r = tt
EndsFor-later started len k added self (some RecvError.err_request_completed) h pos r = absurd r
EndsFor-later started len k added self (some RecvError.err_no_buffered_data) h pos r = absurd r
EndsFor-later started len k added self (some RecvError.err_malformed_chunk_encoding) h pos r =
    absurd r
EndsFor-later started len k added self (some RecvError.err_illegal_hex_character) h pos r = absurd r
EndsFor-later started len k added self (some RecvError.err_token_bigger_then_buffer_limits) h pos
      r =
    absurd r
EndsFor-later started len k added self (some RecvError.err_exceeded_maximum_allowed_buffer_size) h
      pos r =
    absurd r

-- The buffer with the bytes of one `recv`
abbrev take_in : RecvBuffer → Inbound → Bytes → RecvBuffer
take_in self inbound got = buffer_append (record self { inbound = inbound }) got

abbrev Next : Type 0
Next = ℕ → RecvBuffer → Appended

abbrev NextSound : ℕ → Next → Type 0
NextSound n next =
    (k : ℕ) (self : RecvBuffer)
    → 0 < k
    → HasRoom self
    → IsPlain self.mode
    → Sound true (n - k) self (next k self)

take_in-HasRoom :
    (self : RecvBuffer) (inbound : Inbound) (got : Bytes) → HasRoom (take_in self inbound got)
unfolding buffer_append
take_in-HasRoom self inbound got =
    elim (Bool-cases (ltb self.max (length (content self) + length got))) [
      | inl l ↦ rw l (omega (arith, length-append (content self) got))
      | inr l ↦ rw l (ground (arith, l, length-append (content self) got))
    ]

after_increment :
    (started : Bool) (n : ℕ) (self : RecvBuffer) (inbound : Inbound) (got : Bytes) (next : Next)
    (r : Bool × LengthMode)
    → got ++ inbound.stream ≡ self.inbound.stream
    → length got ≤ n
    → 0 < length got
    → Steps self.mode (length got) (content self ++ got) r
    → NextSound n next
    → Sound started n self (
        let self' = take_in self inbound got in
        if r.0
        then (none, record self' { mode = r.1 })
        else next (length got) (record self' { mode = r.1 }))
unfolding buffer_append
after_increment started n self inbound got next (true, mode) e l pos steps h = (
  take_in-HasRoom self inbound got,
  append_assoc (content self) got inbound.stream ∙ ap (λ t. content self ++ t) e,
  length got,
  length-append (content self) got,
  l,
  steps.0,
  (inl pos, inr (inl steps.1)),
)
after_increment started n self inbound got next (false, mode) e l pos steps h =
    let self' = record (take_in self inbound got) { mode = mode } in
    let later =
      h (length got) self' pos (take_in-HasRoom self inbound got)
        (Goes-IsPlain self.mode _ mode steps) in
    let r = next (length got) self' in
    (
      later.0,
      later.1 ∙ append_assoc (content self) got inbound.stream ∙ ap (λ t. content self ++ t) e,
      length got + later.2,
      omega (arith, later.3, length-append (content self) got),
      omega (arith, later.4, l),
      Goes-Counts self.mode (length got) mode later.2 (content r.1) r.1.mode steps later.5,
      EndsFor-later started n (length got) later.2 r.1 r.0 l pos later.6,
    )

after_recv-Sound :
    (started : Bool) (m n : ℕ) (self : RecvBuffer) (next : Next) (r : Received × Inbound)
    → Reads m self.inbound.stream r
    → m ≤ n
    → HasRoom self
    → IsPlain self.mode
    → NextSound n next
    → Sound started n self (after_recv r started self next)
unfolding after_recv
after_recv-Sound started m n self next (Received.failed, inbound) reads le room plain h = (
  room,
  ap (λ t. content self ++ t) reads,
  0,
  omega arith,
  omega arith,
  Counts-nothing self.mode (content self) plain,
  tt,
)
after_recv-Sound started m n self next (Received.received got, inbound) (e, l, ended) le room plain
      h =
    elim (Bool-cases (length got == 0)) [
      | inr more ↦
          let pos : 0 < length got = ground (arith, more) in
          rw more (
            after_increment started n self inbound got next _ e (omega (arith, l, le)) pos
              (steps_of pos) h)
      | inl nothing ↦
          let no_bytes : length got ≡ 0 = ground (arith, nothing) in
          let same : arriving (record self { inbound = inbound }) ≡ arriving self =
            ap (λ t. content self ++ t)
              (ap (λ t. t ++ inbound.stream) (sym (nil_of got no_bytes)) ∙ e) in
          rw nothing (by_start started same (ended no_bytes))
    ]
  where
    steps_of :
        0 < length got
        → Steps self.mode
            (length got)
            (content self ++ got)
            (data_increment self.mode (content self ++ got) (length got))
    steps_of pos = data_increment-Steps self.mode (content self ++ got) (length got) plain pos

    nil_of : (xs : Bytes) → length xs ≡ 0 → xs ≡ []
    nil_of [] q = refl
    nil_of (x ∷ xs) q = absurd (omega (arith, q))

    by_start :
        (b : Bool)
        → arriving (record self { inbound = inbound }) ≡ arriving self
        → inbound.stream ≡ []
        → Sound b n self (
            if b
            then (none, record self { inbound = inbound })
            else (some RecvError.err_no_data_to_be_retrieved, record self { inbound = inbound }))
    by_start true same over = (
      room,
      same,
      0,
      omega arith,
      omega arith,
      Counts-nothing self.mode (content self) plain,
      (inr (inl refl), inr (inr over)),
    )
    by_start false same over = (
      room,
      same,
      0,
      omega arith,
      omega arith,
      Counts-nothing self.mode (content self) plain,
      (refl, refl, over),
    )

module _ (sb_data_size : ℕ) (block : 0 < sb_data_size) where
  append_loop-Sound :
      (fuel n : ℕ) (started : Bool) (self : RecvBuffer)
      → n ≤ fuel
      → HasRoom self
      → IsPlain self.mode
      → Sound started n self (append_loop sb_data_size fuel n started self)
  unfolding append_loop recv
  append_loop-Sound zero n started self le room plain = (
    room,
    refl,
    0,
    omega arith,
    omega arith,
    Counts-nothing self.mode (content self) plain,
    (inr (inr (omega (arith, le))), inl (omega (arith, le))),
  )
  append_loop-Sound (suc fuel) n started self le room plain = elim (Bool-cases (n == 0)) [
    | inl done ↦ rw done (
      room,
      refl,
      0,
      omega arith,
      omega arith,
      Counts-nothing self.mode (content self) plain,
      (inr (inr (ground (arith, done))), inl (ground (arith, done))),
    )
    | inr more ↦
        let pos : 0 < n = ground (arith, more) in
        rw more (
          after_recv-Sound started (min n sb_data_size) n self _ _
            (recv_on-Reads self.inbound.replies self.inbound.stream (min n sb_data_size)
              (omega (arith, pos, block)))
            (omega arith) room plain
            (λ k self' pk room' plain'.
              append_loop-Sound fuel (n - k) true self' (omega (arith, le, pk)) room' plain'))
  ]

  ready-Sound :
      (buffer : Option Bytes) (max len : ℕ) (mode : LengthMode) (inbound : Inbound)
      → HasRoom (record { buffer = buffer; max = max; mode = mode; inbound = inbound })
      → IsPlain mode
      → let self : RecvBuffer = record {
        buffer = buffer;
        max = max;
        mode = mode;
        inbound = inbound;
      } in
        Sound false len self (recv_buffer_append sb_data_size self len)
  unfolding recv_buffer_append
  ready-Sound none max len (LengthMode.length_unknown escape limit) inbound room plain =
      append_loop-Sound len len false
        (record {
          buffer = some [];
          max = sb_data_size;
          mode = LengthMode.length_unknown escape limit;
          inbound = inbound;
        })
        (omega arith) (omega arith) tt
  ready-Sound (some b) max len (LengthMode.length_unknown escape limit) inbound room plain =
      append_loop-Sound len len false
        (record {
          buffer = some b;
          max = max;
          mode = LengthMode.length_unknown escape limit;
          inbound = inbound;
        })
        (omega arith) room tt
  ready-Sound none max len (LengthMode.length_known escape total) inbound room plain =
      append_loop-Sound len len false
        (record {
          buffer = some [];
          max = sb_data_size;
          mode = LengthMode.length_known escape total;
          inbound = inbound;
        })
        (omega arith) (omega arith) tt
  ready-Sound (some b) max len (LengthMode.length_known escape total) inbound room plain =
      append_loop-Sound len len false
        (record {
          buffer = some b;
          max = max;
          mode = LengthMode.length_known escape total;
          inbound = inbound;
        })
        (omega arith) room tt
  ready-Sound none max len (LengthMode.length_token text count) inbound room plain =
      append_loop-Sound len len false
        (record {
          buffer = some [];
          max = sb_data_size;
          mode = LengthMode.length_token text count;
          inbound = inbound;
        })
        (omega arith) (omega arith) tt
  ready-Sound (some b) max len (LengthMode.length_token text count) inbound room plain =
      append_loop-Sound len len false
        (record {
          buffer = some b;
          max = max;
          mode = LengthMode.length_token text count;
          inbound = inbound;
        })
        (omega arith) room tt
  ready-Sound buffer max len (LengthMode.length_chunk next total) inbound room plain = absurd plain
  ready-Sound buffer max len LengthMode.length_complete inbound room plain = absurd plain

  pub recv_buffer_append-Sound :
      (self : RecvBuffer) (len : ℕ)
      → HasRoom self
      → IsPlain self.mode
      → Sound false len self (recv_buffer_append sb_data_size self len)
  recv_buffer_append-Sound self len room plain =
      ready-Sound self.buffer self.max len self.mode self.inbound room plain
