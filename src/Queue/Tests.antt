-- ===== src/Queue/Tests.antt =====
-- The linked queue of src/plugins/concurrencyPlugin.ts on three entries.
use request.Base.{◌≡◌, refl, [], ◌∷◌, some}
use request.Queue.{LinkedQueue, empty, append_queue, remove_queued_entry, shift_queue, unlink}
use request.Queue.Refinement.{
  Represents, empty-Represents, append_queue-Represents, remove_queued_entry-Represents,
  shift_queue-Represents,
}

abbrev two : LinkedQueue
two = append_queue (append_queue empty 7) 8

abbrev three : LinkedQueue
three = append_queue two 9

two-Represents : Represents two (7 ∷ 8 ∷ [])
two-Represents =
    append_queue-Represents (append_queue empty 7) (7 ∷ []) 8
      (append_queue-Represents empty [] 7 empty-Represents refl) refl

append_queue-Represents_example : Represents three (7 ∷ 8 ∷ 9 ∷ [])
append_queue-Represents_example = append_queue-Represents two (7 ∷ 8 ∷ []) 9 two-Represents refl

remove_queued_entry-Represents_example : Represents (remove_queued_entry two 7) (8 ∷ [])
remove_queued_entry-Represents_example =
    remove_queued_entry-Represents two [] 7 (8 ∷ []) two-Represents

shift_queue-Represents_example :
    ((shift_queue two).0 ≡ some 7) × Represents (shift_queue two).1 (8 ∷ [])
shift_queue-Represents_example = shift_queue-Represents two 7 (8 ∷ []) two-Represents

-- The entry in the middle leaves, and its neighbours are linked.
middle_removed :
    (((remove_queued_entry three 8).node 7).next ≡ some 9)
    × (((remove_queued_entry three 8).node 9).prev ≡ some 7)
    × ((remove_queued_entry three 8).size ≡ 2)
unfolding append_queue remove_queued_entry unlink
middle_removed = (refl, refl, refl)
