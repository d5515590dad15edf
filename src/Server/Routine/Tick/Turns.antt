-- ===== src/Server/Routine/Tick/Turns.antt =====
-- A call of `RoutineTick` as one pass over the routines: who has a turn, and what becomes of the others.
use newth.Prelude.{
  ℕ, zero, suc, ◌+◌, ◌≤◌, ◌≡◌, refl, sym, ap, ◌∙◌, Bool, true, false, Option, none, some, List, [],
  ◌∷◌, ◌++◌, append_assoc, append-nil, arith, length, length-append, get_elem?, set, ltb,
}
use newth.Server.Routine.{Routine}
use newth.Server.Routine.Tick.{Multiplex, Stepped, routine_step}
use newth.Server.Routine.Tick.Rounds.{
  Entry, Ended, Ticked, Turn, delete_entry, after_step, turn_at, tick_from, routine_tick,
}

-- The routines that are left of some, the sockets that wait, and the routines that were deleted
abbrev pub Pass : Type 0 → Type 0
Pass D = Option (List Entry × D × List Ended)

abbrev pub with_kept : {D : Type 0} → Entry → Pass D → Pass D
with_kept entry none = none
with_kept entry (some (array, d, ended)) = some (entry ∷ array, d, ended)

abbrev pub with_ended : {D : Type 0} → Ended → Pass D → Pass D
with_ended e none = none
with_ended e (some (array, d, ended)) = some (array, d, e ∷ ended)

abbrev pub ticked : {D : Type 0} → Pass D → Option (Ticked D)
ticked none = none
ticked (some (array, d, ended)) = some (record { array = array; deferred = d; ended = ended })

-- The pass with the routines `front` before, and those that were deleted before
abbrev behind : {D : Type 0} → List Entry → List Ended → Pass D → Option (Ticked D)
behind front before none = none
behind front before (some (array, d, ended)) =
    some (record { array = front ++ array; deferred = d; ended = before ++ ended })

behind-kept :
    {D : Type 0} (front : List Entry) (before : List Ended) (entry : Entry) (p : Pass D)
    → behind (front ++ (entry ∷ [])) before p ≡ behind front before (with_kept entry p)
behind-kept front before entry none = refl
behind-kept front before entry (some (array, d, ended)) =
    ap (λ a. some (record { array = a; deferred = d; ended = before ++ ended }))
      (append_assoc front (entry ∷ []) array)

behind-ended :
    {D : Type 0} (front : List Entry) (before : List Ended) (e : Ended) (p : Pass D)
    → behind front (before ++ (e ∷ [])) p ≡ behind front before (with_ended e p)
behind-ended front before e none = refl
behind-ended front before e (some (array, d, ended)) =
    ap (λ x. some (record { array = front ++ array; deferred = d; ended = x }))
      (append_assoc before (e ∷ []) ended)

behind-ticked : {D : Type 0} (p : Pass D) → behind [] [] p ≡ ticked p
behind-ticked none = refl
behind-ticked (some (array, d, ended)) = refl

get_elem?-front :
    (front rest : List Entry) (e : Entry) → get_elem? (front ++ (e ∷ rest)) (length front) ≡ some e
get_elem?-front [] rest e = refl
get_elem?-front (x ∷ front) rest e = get_elem?-front front rest e

set-front :
    (front rest : List Entry) (e new : Entry)
    → set (front ++ (e ∷ rest)) (length front) new ≡ (front ++ (new ∷ [])) ++ rest
set-front [] rest e new = refl
set-front (x ∷ front) rest e new = ap (◌∷◌ x) (set-front front rest e new)

delete_entry-front :
    (front rest : List Entry) (e : Entry)
    → delete_entry (front ++ (e ∷ rest)) (length front) ≡ front ++ rest
unfolding delete_entry
delete_entry-front [] rest e = refl
delete_entry-front (x ∷ front) rest e = ap (◌∷◌ x) (delete_entry-front front rest e)

module _ {D : Type 0} (multiplex : Multiplex D) (sb_data_size : ℕ) (stays : ℕ → Bool) where
  -- What a turn leaves: the routine with its new state; or it is deleted, `n` routines are left before it and `more`
  -- behind it, and the next one has no turn.
  abbrev pub turned : ℕ → ℕ → Stepped D → (Bool → Bool → ℕ → D → Pass D) → Option Routine → Pass D
  turned n more st go_on (some self) =
      with_kept (record { routine = self; net = st.net }) (go_on true false (n + 1) st.deferred)
  turned n more st go_on none =
      with_ended (record { had_failed = st.had_failed; net = st.net })
        (go_on (stays (n + more)) true n st.deferred)

  abbrev pub stepped : ℕ → ℕ → Option (Stepped D) → (Bool → Bool → ℕ → D → Pass D) → Pass D
  stepped n more none go_on = none
  stepped n more (some st) go_on = turned n more st go_on st.kept

  -- Each routine in its order: one that is passed over stays as it is; a turn behind an array that has moved is a
  -- fault; else the routine has one step.
  unfoldable pub turns : Bool → Bool → ℕ → List Entry → D → Pass D
  turns good skip n [] d = some ([], d, [])
  turns good true n (e ∷ array) d = with_kept e (turns good false (n + 1) array d)
  turns false false n (e ∷ array) d = none
  turns true false n (e ∷ array) d =
      stepped n (length array) (routine_step multiplex sb_data_size e.routine e.net d)
        λ good skip m d'. turns good skip m array d'

  abbrev state : List Entry → D → List Ended → Ticked D
  state array d ended = record { array = array; deferred = d; ended = ended }

  tick_from-end :
      (fuel : ℕ) (good : Bool) (i : ℕ) (t : Ticked D)
      → length t.array ≤ i
      → tick_from multiplex sb_data_size stays fuel good i t ≡ some t
  unfolding tick_from
  tick_from-end zero good i t h = refl
  tick_from-end (suc fuel) good i t h =
      let over : ltb i (length t.array) ≡ false = ground (arith, h) in rw over refl

  -- Where the loop stands, with `n` routines in front and the next one passed over or not
  abbrev place : Bool → ℕ → ℕ
  place true n = suc n
  place false n = n

  place_at_least : (skip : Bool) (n : ℕ) → n ≤ place skip n
  place_at_least true n = omega arith
  place_at_least false n = omega arith

  -- The loop is a pass over `rest`, for all that it may have done before.
  abbrev IsPass : ℕ → List Entry → Type 0
  IsPass fuel rest =
      (good skip : Bool) (front : List Entry) (d : D) (ended : List Ended)
      → tick_from multiplex sb_data_size stays fuel good (place skip (length front))
          (state (front ++ rest) d ended)
        ≡ behind front ended (turns good skip (length front) rest d)

  after_step-turned :
      (fuel : ℕ) (front rest : List Entry) (e : Entry) (d : D) (ended : List Ended) (st : Stepped D)
      (kept : Option Routine)
      → IsPass fuel rest
      → let turn =
          after_step multiplex sb_data_size stays
            (length front)
            (state (front ++ (e ∷ rest)) d ended)
            st
            kept in
        tick_from multiplex sb_data_size stays fuel turn.good (suc (length front)) turn.ticked
        ≡ behind front ended (
            turned
              (length front)
              (length rest)
              st
              (λ good skip m d'. turns good skip m rest d')
              kept)
  unfolding after_step
  after_step-turned fuel front rest e d ended st (some self) pass =
      let new : Entry = record { routine = self; net = st.net } in
      let longer = length-append front (new ∷ []) in
      let size : suc (length front) ≡ length (front ++ (new ∷ [])) = omega (arith, longer) in
      ap
        (λ a.
          tick_from multiplex sb_data_size stays fuel true (suc (length front))
            (state a st.deferred ended))
        (set-front front rest e new)
      ∙ ap
          (λ i.
            tick_from multiplex sb_data_size stays fuel true i
              (state ((front ++ (new ∷ [])) ++ rest) st.deferred ended))
          size
      ∙ pass true false (front ++ (new ∷ [])) st.deferred ended
      ∙ ap (λ m. behind (front ++ (new ∷ [])) ended (turns true false m rest st.deferred)) longer
      ∙ behind-kept front ended new (turns true false (length front + 1) rest st.deferred)
  after_step-turned fuel front rest e d ended st none pass =
      let gone : Ended = record { had_failed = st.had_failed; net = st.net } in
      ap
        (λ a.
          tick_from multiplex sb_data_size stays fuel (stays (length a)) (suc (length front))
            (state a st.deferred (ended ++ (gone ∷ []))))
        (delete_entry-front front rest e)
      ∙ pass (stays (length (front ++ rest))) true front st.deferred (ended ++ (gone ∷ []))
      ∙ ap
          (λ m.
            behind front (ended ++ (gone ∷ []))
              (turns (stays m) true (length front) rest st.deferred))
          (length-append front rest)
      ∙ behind-ended front ended gone
          (turns (stays (length front + length rest)) true (length front) rest st.deferred)

  step-turned :
      (fuel : ℕ) (front rest : List Entry) (e : Entry) (d : D) (ended : List Ended)
      (o : Option (Stepped D))
      → IsPass fuel rest
      → elim (elim o as (λ o. Option (Turn D)) [
        | none ↦ none
        | some st ↦ some (
            after_step multiplex sb_data_size stays
              (length front)
              (state (front ++ (e ∷ rest)) d ended)
              st
              st.kept)
      ])
          as (λ o. Option (Ticked D)) [
            | none ↦ none
            | some turn ↦
                tick_from multiplex sb_data_size stays fuel turn.good
                  (suc (length front))
                  turn.ticked
          ]
        ≡ behind front ended
            (stepped (length front) (length rest) o (λ good skip m d'. turns good skip m rest d'))
  step-turned fuel front rest e d ended none pass = refl
  step-turned fuel front rest e d ended (some st) pass =
      after_step-turned fuel front rest e d ended st st.kept pass

  tick_from-IsPass : (fuel : ℕ) (rest : List Entry) → length rest ≤ fuel → IsPass fuel rest
  unfolding tick_from turn_at turns
  tick_from-IsPass fuel [] h good skip front d ended =
      tick_from-end fuel good (place skip (length front)) (state (front ++ []) d ended)
        (omega (arith, length-append front [], place_at_least skip (length front)))
      ∙ ap (λ x. some (state (front ++ []) d x)) (sym (append-nil ended))
  tick_from-IsPass fuel (e ∷ rest) h good true front d ended =
      let longer = length-append front (e ∷ []) in
      let size : suc (length front) ≡ length (front ++ (e ∷ [])) = omega (arith, longer) in
      ap
        (λ a.
          tick_from multiplex sb_data_size stays fuel good (suc (length front)) (state a d ended))
        (sym (append_assoc front (e ∷ []) rest))
      ∙ ap
          (λ i.
            tick_from multiplex sb_data_size stays fuel good i
              (state ((front ++ (e ∷ [])) ++ rest) d ended))
          size
      ∙ tick_from-IsPass fuel rest (omega (arith, h)) good false (front ++ (e ∷ [])) d ended
      ∙ ap (λ m. behind (front ++ (e ∷ [])) ended (turns good false m rest d)) longer
      ∙ behind-kept front ended e (turns good false (length front + 1) rest d)
  tick_from-IsPass zero (e ∷ rest) h good false front d ended = absurd (omega (arith, h))
  tick_from-IsPass (suc fuel) (e ∷ rest) h false false front d ended =
      let longer = length-append front (e ∷ rest) in
      let on : ltb (length front) (length (front ++ (e ∷ rest))) ≡ true = ground (arith, longer) in
      rw on refl
  tick_from-IsPass (suc fuel) (e ∷ rest) h true false front d ended =
      let longer = length-append front (e ∷ rest) in
      let on : ltb (length front) (length (front ++ (e ∷ rest))) ≡ true = ground (arith, longer) in
      rw (on, get_elem?-front front rest e)
        (step-turned fuel front rest e d ended
          (routine_step multiplex sb_data_size e.routine e.net d)
          (tick_from-IsPass fuel rest (omega (arith, h))))

  -- Whatever `realloc` does, `RoutineTick` is a pass over the array in its order, which ends, and in which each routine
  -- has one step of its state machine, with two exceptions: the routine behind one that is deleted stays as it is, and
  -- if `realloc` has moved the array that shrank, the turn behind that one is a read of freed memory. A step that faults
  -- is a fault of the tick. The routines that are left stand in their order.
  pub routine_tick-turns :
      (array : List Entry) (d : D)
      → routine_tick multiplex sb_data_size stays array d ≡ ticked (turns true false 0 array d)
  unfolding routine_tick
  routine_tick-turns array d =
      tick_from-IsPass (length array) array (omega arith) true false [] d []
      ∙ behind-ticked (turns true false 0 array d)
