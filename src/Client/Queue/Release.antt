-- ===== src/Client/Queue/Release.antt =====
-- What `queueEntryArrayRemove` does to the queue and to the memory of the paths.
use newth.Prelude.{
  ℕ, zero, suc, ◌<◌, ◌≡◌, ◌≢◌, ◌⊎◌, refl, sym, ap, ◌∙◌, inl, inr, true, false, ◌+◌, if◌then◌else◌,
  Bool-cases, none, some, Option-cases, List, [], ◌∷◌, ◌++◌, arith, length, take, drop, get_elem?,
  NotIn, ◌==◌,
}
use newth.Client.Queue.{
  QueueEntry, heap_free, same_entry, find_from, queue_entry_array_find_nth, queue_entry_free,
  entries_free, queue_entry_array_free, remove_at, queue_entry_array_remove, removed,
}
use newth.Client.Queue.Array.{AllMiss, AllDiffer, NoTwins, same_entry_trans}

-- No address is allocated twice.
abbrev pub NoRepeats : List ℕ → Type 0
NoRepeats [] = Unit
NoRepeats (p ∷ heap) = NotIn p heap × NoRepeats heap

heap_free-none : (p : ℕ) (heap : List ℕ) → NotIn p heap → heap_free p heap ≡ none
unfolding heap_free
heap_free-none p [] h = refl
heap_free-none p (q ∷ heap) h = ground (arith, h.0, heap_free-none p heap h.1)

-- The two ways to release an address from a list.
heap_free_inv :
    (p q : ℕ) (heap heap' : List ℕ)
    → heap_free p (q ∷ heap) ≡ some heap'
    → ((p ≡ q) × (heap ≡ heap'))
      ⊎ ((p ≢ q) × ((rest : List ℕ) × (heap_free p heap ≡ some rest) × (q ∷ rest ≡ heap')))
unfolding heap_free
heap_free_inv p q heap heap' e = elim (Bool-cases (p == q)) [
  | inl t ↦
      let value : heap_free p (q ∷ heap) ≡ some heap = rw t refl in
      inl (ground (arith, t), cc (value, e))
  | inr t ↦ elim (Option-cases (heap_free p heap)) [
    | inl r ↦ let value : heap_free p (q ∷ heap) ≡ none = rw (t, r) refl in absurd (cc (value, e))
    | inr (rest, r) ↦
        let value : heap_free p (q ∷ heap) ≡ some (q ∷ rest) = rw (t, r) refl in
        inr (ground (arith, t), (rest, r, cc (value, e)))
  ]
]

NotIn-heap_free :
    (p x : ℕ) (heap heap' : List ℕ) → heap_free p heap ≡ some heap' → NotIn x heap → NotIn x heap'
unfolding heap_free
NotIn-heap_free p x [] heap' e h = absurd cc
NotIn-heap_free p x (q ∷ heap) heap' e h = elim (heap_free_inv p q heap heap' e) [
  | inl (t, same) ↦ rw (sym same) h.1
  | inr (t, (rest, r, same)) ↦ rw (sym same) (h.0, NotIn-heap_free p x heap rest r h.1)
]

heap_free-NotIn :
    (p : ℕ) (heap heap' : List ℕ) → NoRepeats heap → heap_free p heap ≡ some heap' → NotIn p heap'
unfolding heap_free
heap_free-NotIn p [] heap' h e = absurd cc
heap_free-NotIn p (q ∷ heap) heap' h e = elim (heap_free_inv p q heap heap' e) [
  | inl (t, same) ↦ rw (sym same, t) h.0
  | inr (t, (rest, r, same)) ↦ rw (sym same) (λ k. t (sym k), heap_free-NotIn p heap rest h.1 r)
]

queue_entry_free-none :
    (it : QueueEntry) (heap heap' : List ℕ)
    → NoRepeats heap
    → queue_entry_free it heap ≡ some heap'
    → queue_entry_free it heap' ≡ none
unfolding queue_entry_free
queue_entry_free-none it heap heap' h e =
    elim (Option-cases (heap_free it.destination_path.address heap)) [
      | inl f ↦
          let value : queue_entry_free it heap ≡ none = rw (f, queue_entry_free) in
          absurd (cc (value, e))
      | inr (heap1, f) ↦
          let value : queue_entry_free it heap ≡ heap_free it.source_path.address heap1 =
            rw (f, queue_entry_free) refl in
          let gone : NotIn it.destination_path.address heap' =
            NotIn-heap_free it.source_path.address _ heap1 heap' (sym value ∙ e)
              (heap_free-NotIn it.destination_path.address heap heap1 h f) in
          rw (heap_free-none it.destination_path.address heap' gone, queue_entry_free)
    ]

-- Removing the only entry of a queue releases its paths twice, which is a fault, wherever no address is
-- allocated twice.
pub queue_entry_array_remove_only :
    (it entry : QueueEntry) (heap : List ℕ)
    → same_entry it entry ≡ true
    → NoRepeats heap
    → queue_entry_array_remove (some (it ∷ [])) entry heap ≡ none
unfolding queue_entry_array_remove queue_entry_array_find_nth find_from remove_at
    queue_entry_array_free entries_free
queue_entry_array_remove_only it entry heap same h =
    elim (Option-cases (queue_entry_free it heap)) [
      | inl f ↦ rw (same, queue_entry_array_remove) (rw (f, remove_at))
      | inr (heap', f) ↦
          rw (same, queue_entry_array_remove)
            (rw (f, remove_at) (rw (queue_entry_free-none it heap heap' h f, entries_free)))
    ]

NoTwins-AllMiss :
    (array : List QueueEntry) (it entry : QueueEntry)
    → AllDiffer it array
    → same_entry it entry ≡ true
    → AllMiss array entry
NoTwins-AllMiss [] it entry h same = tt
NoTwins-AllMiss (y ∷ array) it entry h same = (
  elim (Bool-cases (same_entry y entry)) [
    | inl k ↦ absurd (cc (same_entry_trans y it entry same k, h.0))
    | inr k ↦ k
  ],
  NoTwins-AllMiss array it entry h.1 same,
)

-- The entries that are not the same as `entry`
abbrev pub others : List QueueEntry → QueueEntry → List QueueEntry
others [] entry = []
others (it ∷ array) entry =
    if same_entry it entry then others array entry else it ∷ others array entry

others-AllMiss :
    (array : List QueueEntry) (entry : QueueEntry)
    → AllMiss array entry
    → others array entry ≡ array
others-AllMiss [] entry h = refl
others-AllMiss (it ∷ array) entry h = rw h.0 (ap (◌∷◌ it) (others-AllMiss array entry h.1))

AllMiss-at :
    (array : List QueueEntry) (it entry : QueueEntry) (i : ℕ)
    → AllMiss array entry
    → get_elem? array i ≡ some it
    → same_entry it entry ≡ false
AllMiss-at [] it entry i h here = absurd cc
AllMiss-at (x ∷ array) it entry zero h here =
    let e : x ≡ it = cc here in ap (λ y. same_entry y entry) (sym e) ∙ h.0
AllMiss-at (x ∷ array) it entry (suc i) h here = AllMiss-at array it entry i h.1 here

-- In a queue without twins an entry behind the first is not the same as the first.
behind_first :
    (x it entry : QueueEntry) (array : List QueueEntry) (i : ℕ)
    → AllDiffer x array
    → get_elem? array i ≡ some it
    → same_entry it entry ≡ true
    → same_entry x entry ≡ false
behind_first x it entry array i h here same = elim (Bool-cases (same_entry x entry)) [
  | inl t ↦
      let other = AllMiss-at array it entry i (NoTwins-AllMiss array x entry h t) here in
      absurd (ground (arith, sym other ∙ same))
  | inr t ↦ t
]

find_from-at :
    (array : List QueueEntry) (it entry : QueueEntry) (i k : ℕ)
    → NoTwins array
    → get_elem? array i ≡ some it
    → same_entry it entry ≡ true
    → find_from array entry k ≡ some (k + i)
unfolding find_from
find_from-at [] it entry i k h here same = absurd cc
find_from-at (x ∷ array) it entry zero k h here same =
    let e : x ≡ it = cc here in
    let t : same_entry x entry ≡ true = ap (λ y. same_entry y entry) e ∙ same in
    rw t (ap some (omega arith))
find_from-at (x ∷ array) it entry (suc i) k h here same =
    let miss = behind_first x it entry array i h.0 here same in
    rw miss (find_from-at array it entry i (suc k) h.1 here same ∙ ap some (omega arith))

others-at :
    (array : List QueueEntry) (it entry : QueueEntry) (i : ℕ)
    → NoTwins array
    → get_elem? array i ≡ some it
    → same_entry it entry ≡ true
    → take i array ++ drop (suc i) array ≡ others array entry
others-at [] it entry i h here same = absurd cc
others-at (x ∷ array) it entry zero h here same =
    let e : x ≡ it = cc here in
    let t : same_entry x entry ≡ true = ap (λ y. same_entry y entry) e ∙ same in
    rw t (sym (others-AllMiss array entry (NoTwins-AllMiss array x entry h.0 t)))
others-at (x ∷ array) it entry (suc i) h here same =
    let miss = behind_first x it entry array i h.0 here same in
    rw miss (ap (◌∷◌ x) (others-at array it entry i h.1 here same))

remove_at-several :
    (array : List QueueEntry) (it : QueueEntry) (i : ℕ) (heap heap' : List ℕ)
    → 1 < length array
    → get_elem? array i ≡ some it
    → queue_entry_free it heap ≡ some heap'
    → remove_at array i heap
      ≡ some (record {
        answer = removed;
        queue = some (take i array ++ drop (suc i) array);
        heap = heap';
      })
unfolding remove_at
remove_at-several [] it i heap heap' l here freed = absurd (omega arith)
remove_at-several (a ∷ []) it i heap heap' l here freed = absurd (omega arith)
remove_at-several (a ∷ b ∷ array) it i heap heap' l here freed =
    rw (here, remove_at) (rw (freed, remove_at))

-- In a queue of several entries without twins stands, at any place, an entry that is the same as the given one and
-- whose paths can be released. Then `queueEntryArrayRemove` succeeds and releases them, and the queue that is left is
-- that of all entries that are not the same, in their order.
pub queue_entry_array_remove_lem :
    (array : List QueueEntry) (it entry : QueueEntry) (i : ℕ) (heap heap' : List ℕ)
    → 1 < length array
    → NoTwins array
    → get_elem? array i ≡ some it
    → same_entry it entry ≡ true
    → queue_entry_free it heap ≡ some heap'
    → queue_entry_array_remove (some array) entry heap
      ≡ some (record { answer = removed; queue = some (others array entry); heap = heap' })
unfolding queue_entry_array_remove queue_entry_array_find_nth
queue_entry_array_remove_lem array it entry i heap heap' l h here same freed =
    let found : find_from array entry 0 ≡ some i =
      find_from-at array it entry i 0 h here same ∙ ap some (omega arith) in
    rw (found, queue_entry_array_remove)
      (remove_at-several array it i heap heap' l here freed
        ∙ ap (λ q. some (record { answer = removed; queue = some q; heap = heap' }))
            (others-at array it entry i h here same))
