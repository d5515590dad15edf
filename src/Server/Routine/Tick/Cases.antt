-- ===== src/Server/Routine/Tick/Cases.antt =====
-- The cases of the switch of `RoutineTick`, for a file routine.
use newth.Prelude.{
  ℕ, ◌<◌, ◌≡◌, refl, sym, ap, ◌∙◌, ◌⊎◌, inl, inr, Bool, true, false, not, ◌&&◌, ◌||◌, Option, none,
  some, [], ◌++◌, ◌==◌, if◌then◌else◌, append-nil, arith, Bytes,
}
use newth.Platform.Stream.{Stream}
use newth.Platform.Socket.{Net}
use newth.Server.SendBuffer.{
  Flushed, SendBuffer, send_buffer_flush, soc_buf_err_full, soc_buf_err_fail,
}
use newth.Server.SendBuffer.Order.{pending, unsent, send_buffer_flush_lem}
use newth.Server.Routine.{RoutineState, Routine}
use newth.Server.Routine.Window.{window}
use newth.Server.Routine.Tick.{
  Multiplex, Stepped, has_option, is_some, is_long, keep, finish_step, after_defer_flush,
  defer_step, after_flush, flush_step, after_file_continue,
}
use newth.Server.Routine.Tick.Invariant.{
  continuing_file, deferring_file, flushing_file, finishing_file, failing_file, KnownOptions,
  Carries, Placed, KeepsStep,
}

not_both : true ≡ false → ⊥
not_both e = ground (arith, e)

module _ {D : Type 0} (multiplex : Multiplex D) (sb_data_size : ℕ)
    (size_pos : 0 < sb_data_size) where
  keep-KeepsStep :
      (total : Bytes) (self : Routine) (net : Net) (d : D)
      → Carries total self net
      → Placed self
      → KeepsStep total (keep multiplex sb_data_size self net d)
  unfolding KeepsStep
  keep-KeepsStep total self net d h placed = (h, placed)

  pub fail-KeepsStep :
      (total : Bytes) (self : Routine) (net : Net) (d : D)
      → KeepsStep total
          (finish_step multiplex sb_data_size (record self { state = failing_file }) net d)
  unfolding KeepsStep finish_step
  fail-KeepsStep total self net d = inl refl

  pub finish-KeepsStep :
      (total : Bytes) (self : Routine) (net : Net) (d : D)
      → Carries total self net
      → window self ≡ []
      → pending self.socket_buffer ≡ []
      → KeepsStep total
          (finish_step multiplex sb_data_size (record self { state = finishing_file }) net d)
  unfolding KeepsStep finish_step
  finish-KeepsStep total self net d h read sent = inr (
      sym (append-nil net.wire)
      ∙ sym (append-nil _)
      ∙ ap (λ x. (net.wire ++ x) ++ []) (sym sent)
      ∙ ap (λ x. (net.wire ++ pending self.socket_buffer) ++ x) (sym read)
      ∙ h.1)

  if-KeepsStep :
      (total : Bytes) (b : Bool) (s t : Stepped D)
      → ((b ≡ true) → KeepsStep total s)
      → ((b ≡ false) → KeepsStep total t)
      → KeepsStep total (if b then s else t)
  if-KeepsStep total true s t h k = h refl
  if-KeepsStep total false s t h k = k refl

  flush-Carries :
      (total : Bytes) (self : Routine) (net : Net)
      → Carries total self net
      → let (n, buffer, net') = send_buffer_flush sb_data_size self.socket_buffer net in
        Carries total (record self { socket_buffer = buffer }) net'
  flush-Carries total self net (v, all, known) =
      let (n, buffer, net') = send_buffer_flush sb_data_size self.socket_buffer net in
      let sent = send_buffer_flush_lem sb_data_size size_pos self.socket_buffer net v.1 in
      let still : KnownOptions buffer = elim sent.2 [
        | inl (same, count) ↦ elim known [
          | inl clear ↦ inl (same ∙ clear)
          | inr fail ↦ inr (same ∙ fail)
        ]
        | inr (fail, count) ↦ inr fail
      ] in
      ((v.0, sent.1), ap (λ x. x ++ window self) sent.0 ∙ all, still)

  after_defer_flush-KeepsStep :
      (total : Bytes) (self : Routine) (r : Flushed) (d : D)
      → Carries total (record self { socket_buffer = r.1 }) r.2
      → KeepsStep total
          (after_defer_flush multiplex sb_data_size (record self { state = deferring_file }) r d)
  unfolding after_defer_flush
  after_defer_flush-KeepsStep total self (sent, buffer, net) d h =
      let at : RoutineState → Routine = λ s. record self { state = s; socket_buffer = buffer } in
      if-KeepsStep total (sent == 0 || has_option buffer soc_buf_err_fail) _ _
        (λ e. keep-KeepsStep total (at failing_file) net d h (inr (inr (inr (inr refl)))))
        λ e.
          if-KeepsStep total (has_option buffer soc_buf_err_full) _ _
            (λ full. keep-KeepsStep total (at deferring_file) net d h (inr (inl refl)))
            λ room. keep-KeepsStep total (at flushing_file) net d h (inr (inr (inl refl)))

  pub defer_step-KeepsStep :
      (total : Bytes) (self : Routine) (net : Net) (d : D)
      → Carries total self net
      → KeepsStep total
          (defer_step multiplex sb_data_size (record self { state = deferring_file }) net d)
  unfolding defer_step
  defer_step-KeepsStep total self net d h =
      if-KeepsStep total
        (multiplex.server_deferred_socket_exists self.socket_buffer.client_socket d) _ _
        (λ e.
          keep-KeepsStep total (record self { state = deferring_file }) net d h (inr (inl refl)))
        λ e.
          if-KeepsStep total (has_option self.socket_buffer soc_buf_err_fail) _ _
            (λ fail.
              keep-KeepsStep total (record self { state = failing_file }) net d h
                (inr (inr (inr (inr refl)))))
            λ fine.
              after_defer_flush-KeepsStep total self
                (send_buffer_flush sb_data_size self.socket_buffer net) d
                (flush-Carries total self net h)

  after_flush-KeepsStep :
      (total : Bytes) (self : Routine) (r : Flushed) (d : D)
      → Carries total (record self { socket_buffer = r.1 }) r.2
      → KeepsStep total
          (after_flush multiplex sb_data_size (record self { state = flushing_file }) r d)
  unfolding after_flush
  after_flush-KeepsStep total self (sent, buffer, net) d h =
      let at : RoutineState → Routine = λ s. record self { state = s; socket_buffer = buffer } in
      if-KeepsStep total (sent == 0 && has_option buffer soc_buf_err_fail) _ _
        (λ fail. keep-KeepsStep total (at failing_file) net d h (inr (inr (inr (inr refl)))))
        λ fine. keep-KeepsStep total (at flushing_file) net d h (inr (inr (inl refl)))

  pub flush_step-KeepsStep :
      (total : Bytes) (self : Routine) (net : Net) (d : D)
      → Carries total self net
      → KeepsStep total
          (flush_step multiplex sb_data_size (record self { state = flushing_file }) net d)
  unfolding flush_step
  flush_step-KeepsStep total self net d h =
      if-KeepsStep total (is_some self.socket_buffer.buffer) _ _
        (λ more.
          after_flush-KeepsStep total self (send_buffer_flush sb_data_size self.socket_buffer net) d
            (flush-Carries total self net h))
        λ empty. keep-KeepsStep total (record self { state = continuing_file }) net d h (inl refl)

  -- A file routine that could read or write nothing goes on only where the buffer is full, and no buffer
  -- is.
  no_progress :
      (n : ℕ) (buffer : SendBuffer)
      → n ≡ 0
      → KnownOptions buffer
      → (not (n == 0) || has_option buffer soc_buf_err_full) ≡ false
  no_progress n buffer e (inl clear) = rw (e, clear) refl
  no_progress n buffer e (inr fail) = rw (e, fail) refl

  any_progress :
      (n : ℕ) (buffer : SendBuffer)
      → 0 < n
      → (not (n == 0) || has_option buffer soc_buf_err_full) ≡ true
  any_progress n buffer some_bytes =
      let more : (n == 0) ≡ false = ground (arith, some_bytes) in rw more refl

  has_option_fail :
      (buffer : SendBuffer)
      → buffer.options ≡ soc_buf_err_fail
      → has_option buffer soc_buf_err_fail ≡ true
  has_option_fail buffer fail = rw fail refl

  unsent-nil : (buffer : Option Stream) (idx : ℕ) → is_some buffer ≡ false → unsent buffer idx ≡ []
  unsent-nil none idx e = refl
  unsent-nil (some s) idx e = absurd (not_both e)

  -- What comes after a call of `FileRoutineContinue` that gave 0.
  pub idle-KeepsStep :
      (total : Bytes) (self : Routine) (net : Net) (d : D)
      → Carries total self net
      → (window self ≡ []) ⊎ (self.socket_buffer.options ≡ soc_buf_err_fail)
      → KeepsStep total (after_file_continue multiplex sb_data_size (0, self, net) d)
  unfolding after_file_continue
  idle-KeepsStep total self net d h why =
      let buffer = self.socket_buffer in
      let defer = multiplex.server_deferred_socket_add buffer.client_socket d in
      if-KeepsStep total (not (0 == 0) || has_option buffer soc_buf_err_full) _ _
        (λ e. absurd (not_both (sym e ∙ no_progress 0 buffer refl h.2)))
        λ e.
          if-KeepsStep total (has_option buffer soc_buf_err_fail) _ _
            (λ failed. fail-KeepsStep total self net d)
            λ fine.
              if-KeepsStep total (is_some buffer.buffer) _ _
                (λ more.
                  keep-KeepsStep total (record self { state = deferring_file }) net defer h
                    (inr (inl refl)))
                λ empty.
                  keep-KeepsStep total (record self { state = finishing_file }) net d h
                    (elim why [
                      | inl w ↦
                          inr (inr (inr (inl (refl, w, unsent-nil buffer.buffer buffer.idx empty))))
                      | inr fail ↦ absurd (not_both (sym (has_option_fail buffer fail) ∙ fine))
                    ])

  -- What comes after a call that sent or kept some bytes.
  pub busy-KeepsStep :
      (total : Bytes) (n : ℕ) (self : Routine) (net : Net) (d : D)
      → Carries total self net
      → 0 < n
      → self.state ≡ continuing_file
      → KeepsStep total (after_file_continue multiplex sb_data_size (n, self, net) d)
  unfolding after_file_continue
  busy-KeepsStep total n self net d h some_bytes state =
      let buffer = self.socket_buffer in
      let defer = multiplex.server_deferred_socket_add buffer.client_socket d in
      if-KeepsStep total (not (n == 0) || has_option buffer soc_buf_err_full) _ _
        (λ e.
          if-KeepsStep total (is_long multiplex sb_data_size sb_data_size buffer.buffer) _ _
            (λ long.
              keep-KeepsStep total (record self { state = deferring_file }) net defer h
                (inr (inl refl)))
            λ short. keep-KeepsStep total self net d h (inl state))
        λ e. absurd (not_both (sym (any_progress n buffer some_bytes) ∙ e))
