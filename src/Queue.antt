-- ===== src/Queue.antt =====
-- The doubly linked wait queue that src/plugins/concurrencyPlugin.ts and
-- src/plugins/rateLimitPlugin.ts share: `appendQueue`, `shiftQueue` and `removeQueuedEntry`, over a
-- heap of entries.
pub mod Segment
pub mod Refinement
mod Tests
use request.Base.{
  ℕ, ◌+◌, ◌-◌, Bool, true, false, List, [], ◌∷◌, Option, none, some, update, if◌then◌else◌,
}

-- The links of a QueueEntry.
pub record Links : Type 0 where
  pub prev : Option ℕ
  pub next : Option ℕ
  pub linked : Bool

-- `head`, `tail` and `size` of a record, and the entries that references stand for.
pub record LinkedQueue : Type 0 where
  pub head : Option ℕ
  pub tail : Option ℕ
  pub size : ℕ
  pub node : ℕ → Links

abbrev pub unlinked : Links
unlinked = record { prev = none; next = none; linked = false }

abbrev pub empty : LinkedQueue
empty = record { head = none; tail = none; size = 0; node = λ _. unlinked }

-- `entry.next = v` and `entry.prev = v` where there is an entry.
abbrev pub set_next : (ℕ → Links) → Option ℕ → Option ℕ → ℕ → Links
set_next node none v = node
set_next node (some e) v = update node e (record (node e) { next = v })

abbrev pub set_prev : (ℕ → Links) → Option ℕ → Option ℕ → ℕ → Links
set_prev node none v = node
set_prev node (some e) v = update node e (record (node e) { prev = v })

-- `a ?? b` on references, for the branches that write `head` or `tail` instead of an entry.
abbrev pub head_after : Option ℕ → Option ℕ → Option ℕ → Option ℕ
head_after none head next = next
head_after (some _) head next = head

unfoldable pub append_queue : LinkedQueue → ℕ → LinkedQueue
append_queue q e =
    let own = update q.node e (record { prev = q.tail; next = none; linked = true }) in
    record {
      head = head_after q.tail q.head (some e);
      tail = some e;
      size = q.size + 1;
      node = set_next own q.tail (some e);
    }

unfoldable pub unlink : LinkedQueue → ℕ → Option ℕ → Option ℕ → LinkedQueue
unlink q e prev next = record {
  head = head_after prev q.head next;
  tail = head_after next q.tail prev;
  size = q.size - 1;
  node = update (set_prev (set_next q.node prev next) next prev) e unlinked;
}

unfoldable pub remove_queued_entry : LinkedQueue → ℕ → LinkedQueue
unfolding unlink
remove_queued_entry q e =
    if (q.node e).linked then unlink q e (q.node e).prev (q.node e).next else q

unfoldable pub shift_queue : LinkedQueue → Option ℕ × LinkedQueue
unfolding remove_queued_entry
shift_queue q = elim q.head [ none ↦ (none, q) | some e ↦ (some e, remove_queued_entry q e) ]
