-- ===== src/Server/Routine/Tick/Runs.antt =====
-- A file routine from `FileRoutineNew` on, through any number of ticks. Between two ticks the rest of
-- the server may change the sockets that wait.
use newth.Prelude.{
  ℕ, ◌≤◌, ◌<◌, ◌≡◌, refl, inl, inr, Bool, Option, none, some, List, [], ◌∷◌, ◌++◌, Bytes,
}
use newth.Platform.Stream.{Stream, platform_memory_stream_seek}
use newth.Platform.Socket.{Net}
use newth.Server.SendBuffer.{SendBuffer}
use newth.Server.SendBuffer.Order.{pending, IsValid}
use newth.Server.Routine.{Routine, file_routine_new}
use newth.Server.Routine.Window.{bytes_to_end}
use newth.Server.Routine.Tick.{Multiplex, Stepped, keep, routine_step}
use newth.Server.Routine.Tick.Invariant.{Serves, KeepsStep, Keeps, Outcome}
use newth.Server.Routine.Tick.Serving.{routine_step-Outcome}

module _ {D : Type 0} (multiplex : Multiplex D) (sb_data_size : ℕ) where
  -- The ticks until the routine is deleted, one for each change of the sockets that wait.
  unfoldable pub routine_ticks : List (D → D) → Routine → Net → D → Option (Stepped D)
  routine_ticks [] self net d = some (keep multiplex sb_data_size self net d)
  routine_ticks (change ∷ changes) self net d =
      elim (routine_step multiplex sb_data_size self net (change d)) [
        | none ↦ none
        | some st ↦ elim st.kept [
          | none ↦ some (record st { kept = none })
          | some self' ↦ routine_ticks changes self' st.net st.deferred
        ]
      ]

  module _ (size_pos : 0 < sb_data_size) where
    -- What follows a tick, where each routine that it keeps is served by `more`.
    next-Outcome :
        (total : Bytes) (more : Routine → Net → D → Option (Stepped D)) (kept : Option Routine)
        (had_failed : Bool) (net : Net) (deferred : D)
        → Keeps total kept had_failed net
        → ((self : Routine) (net : Net) (d : D)
            → Serves total self net
            → Outcome total (more self net d))
        → Outcome total (elim kept [
          | none ↦
              some (record { kept = none; had_failed = had_failed; net = net; deferred = deferred })
          | some self ↦ more self net deferred
        ])
    unfolding KeepsStep
    next-Outcome total more none had_failed net deferred k h = k
    next-Outcome total more (some self) had_failed net deferred k h = h self net deferred k

    step-Outcome :
        (total : Bytes) (more : Routine → Net → D → Option (Stepped D)) (o : Option (Stepped D))
        → Outcome total o
        → ((self : Routine) (net : Net) (d : D)
            → Serves total self net
            → Outcome total (more self net d))
        → Outcome total (elim o [
          | none ↦ none
          | some st ↦ elim st.kept [
            | none ↦ some (record st { kept = none })
            | some self ↦ more self st.net st.deferred
          ]
        ])
    unfolding KeepsStep
    step-Outcome total more none k h = k
    step-Outcome total more (some st) k h =
        next-Outcome total more st.kept st.had_failed st.net st.deferred k h

    routine_ticks-Outcome :
        (total : Bytes) (changes : List (D → D)) (self : Routine) (net : Net) (d : D)
        → Serves total self net
        → Outcome total (routine_ticks changes self net d)
    unfolding routine_ticks KeepsStep
    routine_ticks-Outcome total [] self net d h = h
    routine_ticks-Outcome total (change ∷ changes) self net d h =
        step-Outcome total (routine_ticks changes)
          (routine_step multiplex sb_data_size self net (change d))
          (routine_step-Outcome multiplex sb_data_size size_pos total self net (change d) h)
          (routine_ticks-Outcome total changes)

    -- The routine that `FileRoutineNew` makes of a valid send buffer with no flags and of a window that does
    -- not end before its start never makes a tick fail, whatever the socket answers and the rest of the
    -- server does to the waiting sockets. As long as it is kept, the wire, what the send buffer holds and
    -- what is left of the window are together what they were at first; when it is deleted, it has failed,
    -- or the wire has what it had, what the send buffer held, and all of the window, and no more.
    pub routine_ticks-file_routine_new :
        (changes : List (D → D)) (socket_buffer : SendBuffer) (file : Stream) (start end : ℕ)
        (web_path : Bytes) (net : Net) (d : D)
        → start ≤ end
        → IsValid socket_buffer
        → socket_buffer.options ≡ 0
        → Outcome
            ((net.wire ++ pending socket_buffer) ++ bytes_to_end file.contents start end)
            (routine_ticks changes (file_routine_new socket_buffer file start end web_path) net d)
    unfolding file_routine_new platform_memory_stream_seek
    routine_ticks-file_routine_new changes socket_buffer file start end web_path net d le valid
          clear =
        routine_ticks-Outcome _ changes (file_routine_new socket_buffer file start end web_path) net
          d (((le, valid), refl, inl clear), inr (inr (inl refl)))
