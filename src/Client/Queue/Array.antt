-- ===== src/Client/Queue/Array.antt =====
-- The queue never holds an entry twice.
use newth.Prelude.{
  ℕ, suc, ◌+◌, ◌≡◌, ◌≢◌, refl, ap, ◌∙◌, inl, inr, true, false, Bool-cases, Option, none, some,
  Option-cases, List, [], ◌∷◌, ◌++◌, arith, Bytes, equal, length,
}
use newth.Client.Queue.{
  QueueEntry, same_entry, find_from, queue_entry_array_find_nth, queue_entry_array_append,
}

equal_eq : (s t : Bytes) → equal s t ≡ true → s ≡ t
unfolding equal
equal_eq [] [] h = refl
equal_eq [] (y ∷ t) h = absurd cc
equal_eq (x ∷ s) [] h = absurd cc
equal_eq (x ∷ s) (y ∷ t) h = ground (arith, equal_eq s t)

equal_refl : (s : Bytes) → equal s s ≡ true
unfolding equal
equal_refl [] = refl
equal_refl (x ∷ s) = ground (arith, equal_refl s)

same_entry_refl : (e : QueueEntry) → same_entry e e ≡ true
unfolding same_entry
same_entry_refl e =
    ground (arith, equal_refl e.destination_path.text, equal_refl e.source_path.text)

-- Entries that are the same as one entry are the same as each other.
pub same_entry_trans :
    (y it entry : QueueEntry)
    → same_entry it entry ≡ true
    → same_entry y entry ≡ true
    → same_entry it y ≡ true
unfolding same_entry
same_entry_trans y it entry h k = ground (
  arith,
  equal_eq it.destination_path.text entry.destination_path.text,
  equal_eq it.source_path.text entry.source_path.text,
  equal_eq y.destination_path.text entry.destination_path.text,
  equal_eq y.source_path.text entry.source_path.text,
  equal_refl it.destination_path.text,
  equal_refl it.source_path.text,
)

-- No entry of the array is the same as `entry`.
abbrev pub AllMiss : List QueueEntry → QueueEntry → Type 0
AllMiss [] entry = Unit
AllMiss (it ∷ array) entry = (same_entry it entry ≡ false) × AllMiss array entry

-- `it` is the same as no entry of the array.
abbrev pub AllDiffer : QueueEntry → List QueueEntry → Type 0
AllDiffer it [] = Unit
AllDiffer it (y ∷ array) = (same_entry it y ≡ false) × AllDiffer it array

-- No two entries are the same.
abbrev pub NoTwins : List QueueEntry → Type 0
NoTwins [] = Unit
NoTwins (it ∷ array) = AllDiffer it array × NoTwins array

abbrev pub NoTwinsQueued : Option (List QueueEntry) → Type 0
NoTwinsQueued none = Unit
NoTwinsQueued (some array) = NoTwins array

pub find_from-none :
    (array : List QueueEntry) (e : QueueEntry) (k : ℕ)
    → AllMiss array e
    → find_from array e k ≡ none
unfolding find_from
find_from-none [] e k h = refl
find_from-none (it ∷ array) e k h = rw (h.0, find_from) (find_from-none array e (suc k) h.1)

find_from-AllMiss :
    (array : List QueueEntry) (e : QueueEntry) (k : ℕ)
    → find_from array e k ≡ none
    → AllMiss array e
unfolding find_from
find_from-AllMiss [] e k h = tt
find_from-AllMiss (it ∷ array) e k h = elim (Bool-cases (same_entry it e)) [
  | inl same ↦ absurd (ground (arith, same, h))
  | inr other ↦ (other, find_from-AllMiss array e (suc k) (ground (arith, other, h)))
]

AllDiffer-append :
    (it : QueueEntry) (array : List QueueEntry) (e : QueueEntry)
    → AllDiffer it array
    → same_entry it e ≡ false
    → AllDiffer it (array ++ (e ∷ []))
AllDiffer-append it [] e h k = (k, tt)
AllDiffer-append it (y ∷ array) e h k = (h.0, AllDiffer-append it array e h.1 k)

NoTwins-append :
    (array : List QueueEntry) (e : QueueEntry)
    → NoTwins array
    → AllMiss array e
    → NoTwins (array ++ (e ∷ []))
NoTwins-append [] e h k = (tt, tt)
NoTwins-append (it ∷ array) e h k =
    (AllDiffer-append it array e h.0 k.0, NoTwins-append array e h.1 k.1)

find_from-append :
    (array : List QueueEntry) (e : QueueEntry) (k : ℕ)
    → AllMiss array e
    → find_from (array ++ (e ∷ [])) e k ≡ some (k + length array)
unfolding find_from
find_from-append [] e k h = rw (same_entry_refl e) (ap some (omega arith))
find_from-append (it ∷ array) e k h =
    rw (h.0, find_from) (find_from-append array e (suc k) h.1 ∙ ap some (omega arith))

-- The queue holds an entry that is the same.
abbrev pub Holds : Option (List QueueEntry) → QueueEntry → Type 0
Holds none e = ⊥
Holds (some array) e = queue_entry_array_find_nth array e ≢ none

-- Appending an entry to a queue without twins, one that does not exist yet included, gives a queue
-- without twins that holds the entry.
pub queue_entry_array_append-NoTwins :
    (queue : Option (List QueueEntry)) (e : QueueEntry)
    → NoTwinsQueued queue
    → NoTwinsQueued (queue_entry_array_append queue e) × Holds (queue_entry_array_append queue e) e
unfolding queue_entry_array_append queue_entry_array_find_nth
queue_entry_array_append-NoTwins none e h = ((tt, tt), λ k. cc (k, find_from-append [] e 0 tt))
queue_entry_array_append-NoTwins (some array) e h = elim (Option-cases (find_from array e 0)) [
  | inl new ↦
      let misses = find_from-AllMiss array e 0 new in
      rw (new, queue_entry_array_append)
        ((NoTwins-append array e h misses, λ k. cc (k, find_from-append array e 0 misses)))
  | inr (i, found) ↦ rw (found, queue_entry_array_append) ((h, λ k. cc (k, found)))
]
