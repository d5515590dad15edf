-- ===== src/Server/Routine/Tick/Serving.antt =====
-- What a file routine carries through a step of `RoutineTick`, and what has been sent when it ends.
use mathlib.Core.Path.{subst}
use newth.Prelude.{ℕ, ◌<◌, sym, ◌∙◌, inl, inr, Option, none, some, Bytes}
use newth.Platform.Socket.{Net}
use newth.Server.Routine.{RoutineState, Routine, file_routine_continue}
use newth.Server.Routine.Window.{Continues, file_routine_continue-Continues}
use newth.Server.Routine.Tick.{
  Multiplex, after_file_continue, continue_step, phase_step, routine_step,
}
use newth.Server.Routine.Tick.Invariant.{continuing_file, KnownOptions, Carries, Serves, Outcome}
use newth.Server.Routine.Tick.Cases.{
  fail-KeepsStep, finish-KeepsStep, defer_step-KeepsStep, flush_step-KeepsStep, idle-KeepsStep,
  busy-KeepsStep,
}

module _ {D : Type 0} (multiplex : Multiplex D) (sb_data_size : ℕ)
    (size_pos : 0 < sb_data_size) where
  after_file_continue-KeepsStep :
      (total : Bytes) (self : Routine) (net : Net) (d : D) (o : Option (ℕ × Routine × Net))
      → Carries total self net
      → Continues sb_data_size size_pos (record self { state = continuing_file }) net o
      → Outcome {D = D} total
          (elim o [ none ↦ none | some r ↦ some (after_file_continue multiplex sb_data_size r d) ])
  after_file_continue-KeepsStep total self net d none h c = c
  after_file_continue-KeepsStep total self net d (some (n, self', net')) h
        (v, all, same_end, progress) =
      let carried : KnownOptions self'.socket_buffer → Carries total self' net' =
        λ known. (v, all ∙ h.1, known) in
      elim progress [
        | inl (nothing, before, after, state, same) ↦ rw nothing (
            idle-KeepsStep multiplex sb_data_size size_pos total self' net' d
              (carried (rw same h.2)) (inl after))
        | inr (inl (nothing, fail)) ↦ rw nothing (
            idle-KeepsStep multiplex sb_data_size size_pos total self' net' d (carried (inr fail))
              (inr fail))
        | inr (inr (some_bytes, smaller, state, same)) ↦
            busy-KeepsStep multiplex sb_data_size size_pos total n self' net' d
              (carried (rw same h.2)) some_bytes state
      ]

  -- A tick keeps the invariant.
  pub routine_step-Outcome :
      (total : Bytes) (self : Routine) (net : Net) (d : D)
      → Serves total self net
      → Outcome {D = D} total (routine_step multiplex sb_data_size self net d)
  unfolding routine_step phase_step continue_step
  routine_step-Outcome total self net d (h, placed) =
      let at : RoutineState → Type 0 = λ s.
        Outcome {D = D} total
          (routine_step multiplex sb_data_size (record self { state = s }) net d) in
      elim placed [
        | inl e ↦ subst at (sym e) (
            after_file_continue-KeepsStep total self net d
              (file_routine_continue sb_data_size (record self { state = continuing_file }) net) h
              (file_routine_continue-Continues sb_data_size size_pos
                (record self { state = continuing_file }) net h.0))
        | inr (inl e) ↦
            subst at (sym e)
              (defer_step-KeepsStep multiplex sb_data_size size_pos total self net d h)
        | inr (inr (inl e)) ↦
            subst at (sym e)
              (flush_step-KeepsStep multiplex sb_data_size size_pos total self net d h)
        | inr (inr (inr (inl (e, read, sent)))) ↦
            subst at (sym e)
              (finish-KeepsStep multiplex sb_data_size size_pos total self net d h read sent)
        | inr (inr (inr (inr e))) ↦
            subst at (sym e) (fail-KeepsStep multiplex sb_data_size size_pos total self net d)
      ]
