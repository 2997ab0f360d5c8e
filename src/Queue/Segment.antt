-- ===== src/Queue/Segment.antt =====
-- Chains of linked entries, for the wait queue of src/plugins/concurrencyPlugin.ts.
use request.Base.{
  ℕ, ◌≡◌, refl, ◌≢◌, Bool, true, false, ◌||◌, List, [], ◌∷◌, ◌++◌, Option, none, some, arith,
  update, ◌==◌,
}
use request.Queue.{Links, set_next, set_prev}

abbrev pub elem : ℕ → List ℕ → Bool
elem e [] = false
elem e (x ∷ xs) = x == e || elem e xs

abbrev pub IsDistinct : List ℕ → Type 0
IsDistinct [] = Unit
IsDistinct (x ∷ xs) = (elem x xs ≡ false) × IsDistinct xs

-- The first entry of `xs`, or what follows them; the last, or what stands before them.
abbrev pub first_or : List ℕ → Option ℕ → Option ℕ
first_or [] n = n
first_or (x ∷ xs) n = some x

abbrev pub last_or : Option ℕ → List ℕ → Option ℕ
last_or p [] = p
last_or p (x ∷ xs) = last_or (some x) xs

-- The entries `xs` in a row, behind `p` and before `n`.
abbrev pub IsSegment : (ℕ → Links) → Option ℕ → List ℕ → Option ℕ → Type 0
IsSegment node p [] n = Unit
IsSegment node p (x ∷ xs) n =
    ((node x).prev ≡ p)
    × ((node x).next ≡ first_or xs n)
    × ((node x).linked ≡ true)
    × IsSegment node (some x) xs n

pub elem-append : (e : ℕ) (xs ys : List ℕ) → elem e (xs ++ ys) ≡ (elem e xs || elem e ys)
elem-append e [] ys = refl
elem-append e (x ∷ xs) ys = ground (arith, elem-append e xs ys)

pub IsDistinct-append : (xs ys : List ℕ) → IsDistinct (xs ++ ys) → IsDistinct xs × IsDistinct ys
IsDistinct-append [] ys d = (tt, d)
IsDistinct-append (x ∷ xs) ys d = ground (arith, IsDistinct-append xs ys d.1, elem-append x xs ys)

pub elem_ne : (x y : ℕ) (xs : List ℕ) → elem x xs ≡ false → elem y xs ≡ true → x ≢ y
elem_ne x y xs h k = λ (p : x ≡ y). ground arith

-- What is in the left part of a distinct list is not in the right part.
pub elem_apart :
    (e : ℕ) (xs ys : List ℕ) → IsDistinct (xs ++ ys) → elem e xs ≡ true → elem e ys ≡ false
elem_apart e [] ys d h = ground arith
elem_apart e (x ∷ xs) ys d h = ground (arith, elem_apart e xs ys d.1, elem-append x xs ys)

pub IsDistinct-middle :
    (xs : List ℕ) (e : ℕ) (ys : List ℕ)
    → IsDistinct (xs ++ e ∷ ys)
    → IsDistinct (xs ++ ys) × (elem e (xs ++ ys) ≡ false)
IsDistinct-middle [] e ys d = (d.1, d.0)
IsDistinct-middle (x ∷ xs) e ys d =
    ground (arith, IsDistinct-middle xs e ys d.1, elem-append x xs ys, elem-append x xs (e ∷ ys))

pub IsDistinct-end :
    (xs : List ℕ) (e : ℕ) → IsDistinct xs → elem e xs ≡ false → IsDistinct (xs ++ e ∷ [])
IsDistinct-end [] e d h = (refl, tt)
IsDistinct-end (x ∷ xs) e d h = ground (arith, IsDistinct-end xs e d.1, elem-append x xs (e ∷ []))

module _ (node : ℕ → Links) where
  -- A write elsewhere leaves a segment as it is.
  pub IsSegment-frame :
      (e : ℕ) (v : Links) (p : Option ℕ) (xs : List ℕ) (n : Option ℕ)
      → elem e xs ≡ false
      → IsSegment node p xs n
      → IsSegment (update node e v) p xs n
  IsSegment-frame e v p [] n h s = tt
  IsSegment-frame e v p (x ∷ xs) n h s = ground (arith, IsSegment-frame e v (some x) xs n)

  pub IsSegment-split :
      (p : Option ℕ) (xs ys : List ℕ) (n : Option ℕ)
      → IsSegment node p (xs ++ ys) n
      → IsSegment node p xs (first_or ys n) × IsSegment node (last_or p xs) ys n
  IsSegment-split p [] ys n s = (tt, s)
  IsSegment-split p (x ∷ []) ys n s = ground arith
  IsSegment-split p (x ∷ y ∷ xs) ys n s =
      let (a, b, c, rest) = s in
      let (l, r) = IsSegment-split (some x) (y ∷ xs) ys n rest in ((a, b, c, l), r)

  pub IsSegment-join :
      (p : Option ℕ) (xs ys : List ℕ) (n : Option ℕ)
      → IsSegment node p xs (first_or ys n)
      → IsSegment node (last_or p xs) ys n
      → IsSegment node p (xs ++ ys) n
  IsSegment-join p [] ys n l r = r
  IsSegment-join p (x ∷ []) ys n l r = ground arith
  IsSegment-join p (x ∷ y ∷ xs) ys n l r =
      let (a, b, c, rest) = l in (a, b, c, IsSegment-join (some x) (y ∷ xs) ys n rest r)

  pub segment_linked :
      (e : ℕ) (p : Option ℕ) (xs : List ℕ) (n : Option ℕ)
      → IsSegment node p xs n
      → elem e xs ≡ true
      → (node e).linked ≡ true
  segment_linked e p [] n s h = ground arith
  segment_linked e p (x ∷ xs) n s h = ground (arith, segment_linked e (some x) xs n)

-- The last entry of a chain that begins with `x`.
abbrev pub last_entry : ℕ → List ℕ → ℕ
last_entry x [] = x
last_entry x (y ∷ xs) = last_entry y xs

pub last_or-some : (x : ℕ) (xs : List ℕ) → last_or (some x) xs ≡ some (last_entry x xs)
last_or-some x [] = refl
last_or-some x (y ∷ xs) = last_or-some y xs

pub elem-last_entry : (x : ℕ) (xs : List ℕ) → elem (last_entry x xs) (x ∷ xs) ≡ true
elem-last_entry x [] = ground arith
elem-last_entry x (y ∷ xs) = ground (arith, elem-last_entry y xs)

set_next_other :
    (node : ℕ → Links) (x y : ℕ) (xs : List ℕ) (m : Option ℕ)
    → elem x (y ∷ xs) ≡ false
    → set_next node (last_or (some y) xs) m x ≡ node x
set_next_other node x y xs m h =
    rw (last_or-some y xs)
      (ground (arith, elem-last_entry y xs, elem_ne x (last_entry y xs) (y ∷ xs)))

-- Writing `next` of the last entry turns the segment towards another follower.
pub IsSegment-set_next :
    (node : ℕ → Links) (p : Option ℕ) (x : ℕ) (xs : List ℕ) (n m : Option ℕ)
    → IsDistinct (x ∷ xs)
    → IsSegment node p (x ∷ xs) n
    → IsSegment (set_next node (last_or (some x) xs) m) p (x ∷ xs) m
IsSegment-set_next node p x [] n m d s = ground arith
IsSegment-set_next node p x (y ∷ xs) n m d (a, b, c, rest) =
    let same = set_next_other node x y xs m d.0 in
    (rw same a, rw same b, rw same c, IsSegment-set_next node (some x) y xs n m d.1 rest)

-- Writing `prev` of the first entry, towards another predecessor.
pub IsSegment-set_prev :
    (node : ℕ → Links) (p q : Option ℕ) (xs : List ℕ) (n : Option ℕ)
    → IsDistinct xs
    → IsSegment node p xs n
    → IsSegment (set_prev node (first_or xs none) q) q xs n
IsSegment-set_prev node p q [] n d s = tt
IsSegment-set_prev node p q (x ∷ xs) n d s =
    (ground arith, ground arith, ground arith, IsSegment-frame node x _ (some x) xs n d.0 s.3)

-- An end that is none of the entries `xs`.
abbrev pub elem_end : Option ℕ → List ℕ → Bool
elem_end none xs = false
elem_end (some e) xs = elem e xs

pub elem_end-last_or :
    (xs ys : List ℕ) → IsDistinct (xs ++ ys) → elem_end (last_or none xs) ys ≡ false
elem_end-last_or [] ys d = refl
elem_end-last_or (x ∷ xs) ys d =
    rw (last_or-some x xs) (elem_apart (last_entry x xs) (x ∷ xs) ys d (elem-last_entry x xs))

pub elem_end-first_or :
    (xs ys : List ℕ) → IsDistinct (xs ++ ys) → elem_end (first_or ys none) xs ≡ false
elem_end-first_or xs [] d = refl
elem_end-first_or [] (y ∷ ys) d = refl
elem_end-first_or (x ∷ xs) (y ∷ ys) d =
    ground (arith, elem_end-first_or xs (y ∷ ys) d.1, elem-append x xs (y ∷ ys))

module _ (node : ℕ → Links) where
  pub IsSegment-frame_next :
      (o v p : Option ℕ) (xs : List ℕ) (n : Option ℕ)
      → elem_end o xs ≡ false
      → IsSegment node p xs n
      → IsSegment (set_next node o v) p xs n
  IsSegment-frame_next none v p xs n h s = s
  IsSegment-frame_next (some e) v p xs n h s = IsSegment-frame node e _ p xs n h s

  pub IsSegment-frame_prev :
      (o v p : Option ℕ) (xs : List ℕ) (n : Option ℕ)
      → elem_end o xs ≡ false
      → IsSegment node p xs n
      → IsSegment (set_prev node o v) p xs n
  IsSegment-frame_prev none v p xs n h s = s
  IsSegment-frame_prev (some e) v p xs n h s = IsSegment-frame node e _ p xs n h s

  pub set_next-linked : (o v : Option ℕ) (e : ℕ) → (set_next node o v e).linked ≡ (node e).linked
  set_next-linked none v e = refl
  set_next-linked (some x) v e = ground arith

  pub set_prev-linked : (o v : Option ℕ) (e : ℕ) → (set_prev node o v e).linked ≡ (node e).linked
  set_prev-linked none v e = refl
  set_prev-linked (some x) v e = ground arith

  pub set_next_ne : (o v : Option ℕ) (e : ℕ) → o ≢ some e → set_next node o v e ≡ node e
  set_next_ne none v e h = refl
  set_next_ne (some x) v e h = ground arith

  -- The last of the entries `xs`, if there is one, is turned towards another follower.
  pub IsSegment-turn :
      (xs : List ℕ) (n m : Option ℕ)
      → IsDistinct xs
      → IsSegment node none xs n
      → IsSegment (set_next node (last_or none xs) m) none xs m
  IsSegment-turn [] n m d s = tt
  IsSegment-turn (x ∷ xs) n m d s = IsSegment-set_next node none x xs n m d s
