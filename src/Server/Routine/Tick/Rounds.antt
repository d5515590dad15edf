-- ===== src/Server/Routine/Tick/Rounds.antt =====
-- src/server/routine.c: the loop of `RoutineTick` over the array, by its index. Each routine stands with what its own
-- socket shows, of which no other routine has a part. `stays n` is whether `realloc` leaves an array that shrinks to `n`
-- routines where it is: the loop goes on with the pointer that it took before.
use newth.Prelude.{
  ℕ, zero, suc, Bool, true, Option, none, some, List, [], ◌∷◌, ◌++◌, length, take, drop, get_elem?,
  set, ltb, if◌then◌else◌,
}
use newth.Platform.Socket.{Net}
use newth.Server.Routine.{Routine}
use newth.Server.Routine.Tick.{Multiplex, Stepped, routine_step}

-- A routine and its socket
pub record Entry : Type 0 where
  pub routine : Routine
  pub net : Net

-- What is told to `eventHttpFinishInvoke` of a routine that is deleted, and its socket
pub record Ended : Type 0 where
  pub had_failed : Bool
  pub net : Net

-- The array, the sockets that wait, and the routines that were deleted, in this order
pub record Ticked (D : Type 0) : Type 0 where
  pub array : List Entry
  pub deferred : D
  pub ended : List Ended

-- The loop of `RoutineArrayDel`, which finds the routine at its index, and `RoutineArrayDelIdx`
unfoldable pub delete_entry : List Entry → ℕ → List Entry
delete_entry array idx = take idx array ++ drop (suc idx) array

-- The end of a turn: the pointer to the array is good as long as nothing was moved under it.
pub record Turn (D : Type 0) : Type 0 where
  pub good : Bool
  pub ticked : Ticked D

module _ {D : Type 0} (multiplex : Multiplex D) (sb_data_size : ℕ) (stays : ℕ → Bool) where
  -- What the step of the routine at `i` leaves
  unfoldable pub after_step : ℕ → Ticked D → Stepped D → Option Routine → Turn D
  unfolding delete_entry
  after_step i t st (some self) = record {
    good = true;
    ticked = record {
      array = set t.array i (record { routine = self; net = st.net });
      deferred = st.deferred;
      ended = t.ended;
    };
  }
  after_step i t st none =
      let array = delete_entry t.array i in
      record {
        good = stays (length array);
        ticked = record {
          array = array;
          deferred = st.deferred;
          ended = t.ended ++ (record { had_failed = st.had_failed; net = st.net } ∷ []);
        };
      }

  -- `Routine *routine = &routines[i]` and its switch
  unfoldable pub turn_at : ℕ → Ticked D → Option (Turn D)
  unfolding after_step
  turn_at i t = elim (get_elem? t.array i) [
    | none ↦ none
    | some entry ↦ elim (routine_step multiplex sb_data_size entry.routine entry.net t.deferred) [
      | none ↦ none
      | some st ↦ some (after_step i t st st.kept)
    ]
  ]

  -- The loop of `RoutineTick` from `i` on, on fuel. A read through a pointer that is not good any more is `none`.
  unfoldable pub tick_from : ℕ → Bool → ℕ → Ticked D → Option (Ticked D)
  unfolding turn_at
  tick_from zero good i t = some t
  tick_from (suc fuel) good i t =
      let next : Option (Ticked D) = elim (turn_at i t) [
        | none ↦ none
        | some turn ↦ tick_from fuel turn.good (suc i) turn.ticked
      ] in
      if ltb i (length t.array) then (if good then next else none) else some t

  -- `RoutineTick`. A round moves on by a place and adds none, so that the length of the array is enough fuel.
  unfoldable pub routine_tick : List Entry → D → Option (Ticked D)
  unfolding tick_from
  routine_tick array d =
      tick_from (length array) true 0 (record { array = array; deferred = d; ended = [] })
