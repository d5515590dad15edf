-- ===== src/Client/Queue/Tests.antt =====
-- Runs of the queue, and its theorems at concrete inputs.
use newth.Prelude.{◌≡◌, refl, true, false, some, none, [], ◌∷◌, codes, arith, equal}
use newth.Client.Queue.{
  QueueState, QueueEntry, same_entry, queue_entry_array_append, queue_entry_array_remove,
  queue_entry_free, removed,
}
use newth.Client.Queue.Array.{NoTwinsQueued, Holds, queue_entry_array_append-NoTwins}
use newth.Client.Queue.Release.{others, queue_entry_array_remove_only, queue_entry_array_remove_lem}

abbrev waiting : QueueState
waiting = record {
  queued = true;
  skipped = false;
  finished = false;
  failed = false;
  recursive = false;
}

abbrev entry_a : QueueEntry
entry_a = record {
  source_site = 1;
  destination_site = 0;
  source_path = record { address = 10; text = codes "/a" };
  destination_path = record { address = 11; text = codes "/" };
  state = waiting;
}

abbrev entry_b : QueueEntry
entry_b = record entry_a {
  source_path = record { address = 12; text = codes "/b" };
  destination_path = record { address = 13; text = codes "/" };
}

appended :
    queue_entry_array_append (queue_entry_array_append (some (entry_a ∷ [])) entry_b) entry_a
    ≡ some (entry_a ∷ entry_b ∷ [])
unfolding queue_entry_array_append equal
appended = refl

queue_entry_array_append-NoTwins_example :
    NoTwinsQueued (queue_entry_array_append (some (entry_a ∷ [])) entry_b)
    × Holds (queue_entry_array_append (some (entry_a ∷ [])) entry_b) entry_b
queue_entry_array_append-NoTwins_example =
    queue_entry_array_append-NoTwins (some (entry_a ∷ [])) entry_b (tt, tt)

same_a : same_entry entry_a entry_a ≡ true
unfolding same_entry equal
same_a = refl

different : same_entry entry_a entry_b ≡ false
unfolding same_entry equal
different = refl

queue_entry_array_remove_only_example :
    queue_entry_array_remove (some (entry_a ∷ [])) entry_a (10 ∷ 11 ∷ []) ≡ none
queue_entry_array_remove_only_example =
    queue_entry_array_remove_only entry_a entry_a (10 ∷ 11 ∷ []) same_a
      ((ground arith, tt), (tt, tt))

same_b : same_entry entry_b entry_b ≡ true
unfolding same_entry equal
same_b = refl

freed_b : queue_entry_free entry_b (10 ∷ 11 ∷ 12 ∷ 13 ∷ []) ≡ some (10 ∷ 11 ∷ [])
unfolding queue_entry_free
freed_b = refl

queue_entry_array_remove_lem_example :
    queue_entry_array_remove (some (entry_a ∷ entry_b ∷ [])) entry_b (10 ∷ 11 ∷ 12 ∷ 13 ∷ [])
    ≡ some (record {
      answer = removed;
      queue = some (others (entry_a ∷ entry_b ∷ []) entry_b);
      heap = 10 ∷ 11 ∷ [];
    })
queue_entry_array_remove_lem_example =
    queue_entry_array_remove_lem (entry_a ∷ entry_b ∷ []) entry_b entry_b 1 (10 ∷ 11 ∷ 12 ∷ 13 ∷ [])
      (10 ∷ 11 ∷ []) (omega arith) ((different, tt), (tt, tt)) refl same_b freed_b
