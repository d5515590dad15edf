-- ===== src/Client/Queue.antt =====
-- The download queue of src/client/queue.c. Sites are named by their addresses. A path is a text in
-- allocated memory: its address, and its bytes; an entry's paths are not NULL, since `strcmp` reads them.
pub mod Array
pub mod Release
mod Tests
use newth.Prelude.{
  ℕ, zero, suc, ◌+◌, Bool, true, false, ◌&&◌, Option, none, some, List, [], ◌∷◌, ◌++◌, ◌==◌,
  if◌then◌else◌, Bytes, equal, length, take, drop, get_elem?,
}

-- The bits of `enum QueueState`
pub record QueueState : Type 0 where
  pub queued : Bool
  pub skipped : Bool
  pub finished : Bool
  pub failed : Bool
  pub recursive : Bool

pub record HeapText : Type 0 where
  pub address : ℕ
  pub text : Bytes

pub record QueueEntry : Type 0 where
  pub source_site : ℕ
  pub destination_site : ℕ
  pub source_path : HeapText
  pub destination_path : HeapText
  pub state : QueueState

-- The addresses that are allocated. Releasing another address is a fault, `none`.
unfoldable pub heap_free : ℕ → List ℕ → Option (List ℕ)
heap_free p [] = none
heap_free p (q ∷ heap) =
    let rest = heap_free p heap in
    if p == q then some heap else elim rest [ none ↦ none | some heap' ↦ some (q ∷ heap') ]

-- The test of `queueEntryArrayFindNth`
unfoldable pub same_entry : QueueEntry → QueueEntry → Bool
same_entry it entry =
    it.destination_site == entry.destination_site
    && it.source_site == entry.source_site
    && equal it.destination_path.text entry.destination_path.text
    && equal it.source_path.text entry.source_path.text

unfoldable pub find_from : List QueueEntry → QueueEntry → ℕ → Option ℕ
unfolding same_entry
find_from [] entry i = none
find_from (it ∷ array) entry i =
    let rest = find_from array entry (suc i) in if same_entry it entry then some i else rest

-- `queueEntryArrayFindNth`; -1 is `none`.
unfoldable pub queue_entry_array_find_nth : List QueueEntry → QueueEntry → Option ℕ
unfolding find_from
queue_entry_array_find_nth array entry = find_from array entry 0

-- `queueEntryArrayAppend`. A queue that is not allocated is `none`.
unfoldable pub queue_entry_array_append :
    Option (List QueueEntry) → QueueEntry → Option (List QueueEntry)
unfolding queue_entry_array_find_nth
queue_entry_array_append none entry = some (entry ∷ [])
queue_entry_array_append (some array) entry = elim (queue_entry_array_find_nth array entry) [
  | some i ↦ some array
  | none ↦ some (array ++ (entry ∷ []))
]

-- `queueEntryFree`
unfoldable pub queue_entry_free : QueueEntry → List ℕ → Option (List ℕ)
unfolding heap_free
queue_entry_free entry heap = elim (heap_free entry.destination_path.address heap) [
  | none ↦ none
  | some heap' ↦ heap_free entry.source_path.address heap'
]

-- The loop of `queueEntryArrayFree`
unfoldable pub entries_free : List QueueEntry → List ℕ → Option (List ℕ)
unfolding queue_entry_free
entries_free [] heap = some heap
entries_free (entry ∷ array) heap = elim (queue_entry_free entry heap) [
  | none ↦ none
  | some heap' ↦ entries_free array heap'
]

-- `queueEntryArrayFree`: the queue that is left, and the memory.
unfoldable pub queue_entry_array_free :
    Option (List QueueEntry) → List ℕ → Option (Option (List QueueEntry) × List ℕ)
unfolding entries_free
queue_entry_array_free none heap = some (none, heap)
queue_entry_array_free (some array) heap = elim (entries_free array heap) [
  | none ↦ none
  | some heap' ↦ some (none, heap')
]

-- `queueEntryArrayFreeArrayOnly`
unfoldable pub queue_entry_array_free_array_only :
    Option (List QueueEntry) → Option (List QueueEntry)
queue_entry_array_free_array_only queue = none

-- What `queueEntryArrayRemove` answers: NULL, or "No such entry".
pub data RemoveAnswer : Type 0 where
  removed no_such_entry : RemoveAnswer

pub record Removal : Type 0 where
  pub answer : RemoveAnswer
  pub queue : Option (List QueueEntry)
  pub heap : List ℕ

-- The part of `queueEntryArrayRemove` behind the search, for the entry at index `i`. The last entry of
-- all is left to `queueEntryArrayFree`, after its paths are released already.
unfoldable pub remove_at : List QueueEntry → ℕ → List ℕ → Option Removal
unfolding queue_entry_free queue_entry_array_free
remove_at array i heap = elim (get_elem? array i) [
  | none ↦ none
  | some entry ↦ elim (queue_entry_free entry heap) [
    | none ↦ none
    | some heap' ↦ elim (length array) [
      | suc (suc m) ↦ some (record {
        answer = removed;
        queue = some (take i array ++ drop (suc i) array);
        heap = heap';
      })
      | _ ↦ elim (queue_entry_array_free (some array) heap') [
        | none ↦ none
        | some (queue, heap'') ↦ some (record { answer = removed; queue = queue; heap = heap'' })
      ]
    ]
  ]
]

-- `queueEntryArrayRemove`
unfoldable pub queue_entry_array_remove :
    Option (List QueueEntry) → QueueEntry → List ℕ → Option Removal
unfolding queue_entry_array_find_nth remove_at
queue_entry_array_remove none entry heap =
    some (record { answer = no_such_entry; queue = none; heap = heap })
queue_entry_array_remove (some array) entry heap = elim (queue_entry_array_find_nth array entry) [
  | none ↦ some (record { answer = no_such_entry; queue = some array; heap = heap })
  | some i ↦ remove_at array i heap
]
