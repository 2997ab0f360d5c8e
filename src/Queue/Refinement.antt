-- ===== src/Queue/Refinement.antt =====
-- The linked queue of src/plugins/concurrencyPlugin.ts and src/plugins/rateLimitPlugin.ts is a list,
-- first in, first out, from which any entry can be taken.
use mathlib.Core.List.{append-nil}
use request.Base.{
  ℕ, ◌≡◌, refl, ◌≢◌, true, false, List, [], ◌∷◌, ◌++◌, Option, none, some, arith, update, length,
  length-append, sym, ◌∙◌,
}
use request.Queue.{
  Links, LinkedQueue, empty, unlinked, set_next, set_prev, head_after, append_queue,
  remove_queued_entry, shift_queue,
}
use request.Queue.Segment.{
  elem, elem-append, IsDistinct, IsDistinct-append, IsDistinct-middle, IsDistinct-end, elem_ne,
  first_or, last_or, IsSegment, last_entry, last_or-some, IsSegment-frame, IsSegment-split,
  IsSegment-join, IsSegment-set_prev, elem-last_entry, IsSegment-turn, set_next-linked,
  set_prev-linked, set_next_ne, IsSegment-frame_prev, IsSegment-frame_next, elem_end-first_or,
  elem_end-last_or,
}

-- The queue `q` holds the entries `xs`, oldest first: its ends, its size and every link say so, and
-- no other entry is linked.
pub record Represents (q : LinkedQueue) (xs : List ℕ) : Type 0 where
  pub head : q.head ≡ first_or xs none
  pub tail : q.tail ≡ last_or none xs
  pub size : q.size ≡ length xs
  pub chain : IsSegment q.node none xs none
  pub distinct : IsDistinct xs
  pub outside : (e : ℕ) → elem e xs ≡ false → (q.node e).linked ≡ false

pub empty-Represents : Represents empty []
empty-Represents = record {
  head = refl;
  tail = refl;
  size = refl;
  chain = tt;
  distinct = tt;
  outside = λ e h. refl;
}

last_or-append : (p : Option ℕ) (xs : List ℕ) (e : ℕ) → last_or p (xs ++ e ∷ []) ≡ some e
last_or-append p [] e = refl
last_or-append p (x ∷ xs) e = last_or-append (some x) xs e

last_or-ne : (xs : List ℕ) (e : ℕ) → elem e xs ≡ false → last_or none xs ≢ some e
last_or-ne [] e h = cc
last_or-ne (x ∷ xs) e h =
    rw (last_or-some x xs)
      (λ p. elem_ne e (last_entry x xs) (x ∷ xs) h (elem-last_entry x xs) (ground arith))

append_head :
    (t h : Option ℕ) (xs : List ℕ) (e : ℕ)
    → t ≡ last_or none xs
    → h ≡ first_or xs none
    → head_after t h (some e) ≡ first_or (xs ++ e ∷ []) none
append_head t h [] e p q = rw p
append_head t h (x ∷ xs) e p q = rw (p ∙ last_or-some x xs) q

append_chain :
    (node : ℕ → Links) (xs : List ℕ) (e : ℕ)
    → IsDistinct xs
    → elem e xs ≡ false
    → IsSegment node none xs none
    → IsSegment
        (set_next
          (update node e (record { prev = last_or none xs; next = none; linked = true }))
          (last_or none xs)
          (some e))
        none
        (xs ++ e ∷ [])
        none
append_chain node xs e d h s =
    let own = update node e (record { prev = last_or none xs; next = none; linked = true }) in
    let new = set_next_ne own (last_or none xs) (some e) e (last_or-ne xs e h) in
    IsSegment-join (set_next own (last_or none xs) (some e)) none xs (e ∷ []) none
      (IsSegment-turn own xs none (some e) d (IsSegment-frame node e _ none xs none h s))
      (rw new (ground arith))

-- On a queue that stands for a list, `appendQueue` of an entry that is not queued puts it behind all
-- others.
pub append_queue-Represents :
    (q : LinkedQueue) (xs : List ℕ) (e : ℕ)
    → Represents q xs
    → elem e xs ≡ false
    → Represents (append_queue q e) (xs ++ e ∷ [])
unfolding append_queue
append_queue-Represents q xs e r h = record {
  head = append_head q.tail q.head xs e r.tail r.head;
  tail = sym (last_or-append none xs e);
  size = omega (arith, r.size, length-append xs (e ∷ []));
  chain = rw r.tail (append_chain q.node xs e r.distinct h r.chain);
  distinct = IsDistinct-end xs e r.distinct h;
  outside = λ x out. ground (
    arith,
    r.outside x,
    elem-append x xs (e ∷ []),
    set_next-linked (update q.node e (record { prev = q.tail; next = none; linked = true })) q.tail
        (some e) x,
  );
}

-- The entry in the middle of a queue knows its neighbours.
middle_links :
    (q : LinkedQueue) (xs : List ℕ) (e : ℕ) (ys : List ℕ)
    → Represents q (xs ++ e ∷ ys)
    → ((q.node e).prev ≡ last_or none xs)
      × ((q.node e).next ≡ first_or ys none)
      × ((q.node e).linked ≡ true)
      × IsSegment q.node none xs (some e)
      × IsSegment q.node (some e) ys none
middle_links q xs e ys r =
    let (left, rest) = IsSegment-split q.node none xs (e ∷ ys) none r.chain in
    let (p, n, l, right) = rest in (p, n, l, left, right)

unlinked_chain :
    (node : ℕ → Links) (xs : List ℕ) (e : ℕ) (ys : List ℕ)
    → IsDistinct (xs ++ e ∷ ys)
    → IsSegment node none xs (some e)
    → IsSegment node (some e) ys none
    → IsSegment
        (update
          (set_prev
            (set_next node (last_or none xs) (first_or ys none))
            (first_or ys none)
            (last_or none xs))
          e
          unlinked)
        none
        (xs ++ ys)
        none
unlinked_chain node xs e ys d left right =
    let p = last_or none xs in
    let n = first_or ys none in
    let (apart, out) = IsDistinct-middle xs e ys d in
    let turned = set_next node p n in
    let joined = set_prev turned n p in
    let dx = (IsDistinct-append xs ys apart).0 in
    let dy = (IsDistinct-append xs ys apart).1 in
    IsSegment-frame joined e unlinked none (xs ++ ys) none out (
      IsSegment-join joined none xs ys none
        (IsSegment-frame_prev turned n p none xs n (elem_end-first_or xs ys apart)
          (IsSegment-turn node xs (some e) n dx left))
        (IsSegment-set_prev turned (some e) p ys none dy
          (IsSegment-frame_next node p n (some e) ys none (elem_end-last_or xs ys apart) right)))

unlinked_head :
    (h : Option ℕ) (xs : List ℕ) (e : ℕ) (ys : List ℕ)
    → h ≡ first_or (xs ++ e ∷ ys) none
    → head_after (last_or none xs) h (first_or ys none) ≡ first_or (xs ++ ys) none
unlinked_head h [] e ys p = refl
unlinked_head h (x ∷ xs) e ys p = rw (last_or-some x xs) p

last_or-first :
    (p : Option ℕ) (xs : List ℕ) (y : ℕ) (ys : List ℕ)
    → last_or p (xs ++ y ∷ ys) ≡ some (last_entry y ys)
last_or-first p [] y ys = last_or-some y ys
last_or-first p (x ∷ xs) y ys = last_or-first (some x) xs y ys

unlinked_tail :
    (t : Option ℕ) (xs : List ℕ) (e : ℕ) (ys : List ℕ)
    → t ≡ last_or none (xs ++ e ∷ ys)
    → head_after (first_or ys none) t (last_or none xs) ≡ last_or none (xs ++ ys)
unlinked_tail t xs e [] p = rw append-nil
unlinked_tail t xs e (y ∷ ys) p =
    p ∙ last_or-first none xs e (y ∷ ys) ∙ sym (last_or-first none xs y ys)

-- On a queue that stands for a list, `removeQueuedEntry` takes an entry of it out, wherever it stands,
-- and keeps the order of the others; the entry is then not linked.
pub remove_queued_entry-Represents :
    (q : LinkedQueue) (xs : List ℕ) (e : ℕ) (ys : List ℕ)
    → Represents q (xs ++ e ∷ ys)
    → Represents (remove_queued_entry q e) (xs ++ ys)
unfolding remove_queued_entry
remove_queued_entry-Represents q xs e ys r =
    let (p, n, l, left, right) = middle_links q xs e ys r in
    let (apart, out) = IsDistinct-middle xs e ys r.distinct in
    let prev = last_or none xs in
    let next = first_or ys none in
    rw (l, p, n)
      (record {
        head = unlinked_head q.head xs e ys r.head;
        tail = unlinked_tail q.tail xs e ys r.tail;
        size = omega (arith, r.size, length-append xs (e ∷ ys), length-append xs ys);
        chain = unlinked_chain q.node xs e ys r.distinct left right;
        distinct = apart;
        outside = λ x absent. ground (
          arith,
          r.outside x,
          elem-append x xs ys,
          elem-append x xs (e ∷ ys),
          set_prev-linked (set_next q.node prev next) next prev x,
          set_next-linked q.node prev next x,
        );
      })

-- On a queue that stands for a list, `removeQueuedEntry` of an entry that is not in it changes
-- nothing.
pub remove_queued_entry_absent :
    (q : LinkedQueue) (xs : List ℕ) (e : ℕ)
    → Represents q xs
    → elem e xs ≡ false
    → remove_queued_entry q e ≡ q
unfolding remove_queued_entry
remove_queued_entry_absent q xs e r h = rw (r.outside e h)

-- On a queue that stands for a list with a first entry, `shiftQueue` gives that entry and leaves the
-- queue of the others.
pub shift_queue-Represents :
    (q : LinkedQueue) (x : ℕ) (xs : List ℕ)
    → Represents q (x ∷ xs)
    → ((shift_queue q).0 ≡ some x) × Represents (shift_queue q).1 xs
unfolding shift_queue
shift_queue-Represents q x xs r =
    rw (r.head, shift_queue) (refl, remove_queued_entry-Represents q [] x xs r)

pub shift_queue_empty :
    (q : LinkedQueue) → Represents q [] → ((shift_queue q).0 ≡ none) × ((shift_queue q).1 ≡ q)
unfolding shift_queue
shift_queue_empty q r = ground (arith, r.head)
