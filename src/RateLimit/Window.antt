-- ===== src/RateLimit/Window.antt =====
-- The rolling window of src/plugins/rateLimitPlugin.ts: the timestamps from the head on are the
-- admissions of the last interval.
use request.Base.{
  ℕ, zero, suc, ◌+◌, ◌-◌, ◌*◌, ◌≤◌, ◌<◌, ◌≡◌, refl, ap, sym, ◌∙◌, inl, inr, ◌&&◌, List, [], ◌∷◌,
  ◌++◌, Option, none, some, arith, length, length-append, All, All-mono, leb, Bool-cases,
}
use request.RateLimit.State.{
  Options, RateLimitRecord, drop, expired_count, compact, prune_timestamps, active_count,
  push_timestamp,
}

-- The timestamps that count.
abbrev pub window : RateLimitRecord → List ℕ
window r = drop r.timestamp_head r.timestamps

-- `xs`, last first, in front of `acc`.
abbrev pub rev : List ℕ → List ℕ → List ℕ
rev [] acc = acc
rev (x ∷ xs) acc = rev xs (x ∷ acc)

abbrev pub get_elem? : List ℕ → ℕ → Option ℕ
get_elem? [] i = none
get_elem? (x ∷ xs) zero = some x
get_elem? (x ∷ xs) (suc i) = get_elem? xs i

pub rev-snoc : (xs : List ℕ) (x : ℕ) (acc : List ℕ) → rev (xs ++ x ∷ []) acc ≡ x ∷ rev xs acc
rev-snoc [] x acc = refl
rev-snoc (y ∷ xs) x acc = rev-snoc xs x (y ∷ acc)

pub get_elem?-rev :
    (xs acc : List ℕ) (i j : ℕ) → j ≡ length xs + i → get_elem? (rev xs acc) j ≡ get_elem? acc i
get_elem?-rev [] acc i j h = ap (get_elem? acc) (omega arith)
get_elem?-rev (x ∷ xs) acc i j h = get_elem?-rev xs (x ∷ acc) (suc i) j (omega arith)

get_elem?-All {κ} :
    (P : ℕ → Type κ) (xs : List ℕ) (i v : ℕ) → All P xs → get_elem? xs i ≡ some v → P v
get_elem?-All P [] i v h e = ground arith
get_elem?-All P (x ∷ xs) zero v h e = ground (arith, h.0)
get_elem?-All P (x ∷ xs) (suc i) v h e = get_elem?-All P xs i v h.1 e

drop-snoc :
    (n : ℕ) (xs : List ℕ) (x : ℕ) → n ≤ length xs → drop n (xs ++ x ∷ []) ≡ drop n xs ++ x ∷ []
drop-snoc zero xs x h = refl
drop-snoc (suc n) [] x h = absurd (omega arith)
drop-snoc (suc n) (y ∷ xs) x h = drop-snoc n xs x (omega arith)

drop_nil : (k : ℕ) → drop {A = ℕ} k [] ≡ []
drop_nil zero = refl
drop_nil (suc k) = refl

suc_add : (n k : ℕ) → suc n + k ≡ suc (n + k)
suc_add n k = omega arith

drop_add : (n k : ℕ) (xs : List ℕ) → drop (n + k) xs ≡ drop k (drop n xs)
drop_add zero k xs = ap (λ (m : ℕ). drop m xs) (omega arith)
drop_add (suc n) k [] = rw (suc_add n k) (sym (drop_nil k))
drop_add (suc n) k (x ∷ xs) = rw (suc_add n k) (drop_add n k xs)

length-drop : (n : ℕ) (xs : List ℕ) → length (drop n xs) ≡ length xs - n
length-drop zero xs = omega arith
length-drop (suc n) [] = omega arith
length-drop (suc n) (x ∷ xs) = omega (arith, length-drop n xs)

expired_count-le : (now interval : ℕ) (ts : List ℕ) → expired_count now interval ts ≤ length ts
unfolding expired_count
expired_count-le now interval [] = omega arith
expired_count-le now interval (t ∷ ts) = ground (arith, expired_count-le now interval ts)

-- The head of a record stays within its timestamps.
abbrev pub HasHead : RateLimitRecord → Type 0
HasHead r = r.timestamp_head ≤ length r.timestamps

pub active_count-window : (r : RateLimitRecord) → active_count r ≡ length (window r)
active_count-window r = sym (length-drop r.timestamp_head r.timestamps)

-- Compaction moves no timestamp in or out of the window.
compact-window :
    (r : RateLimitRecord) → HasHead r → (window (compact r) ≡ window r) × HasHead (compact r)
compact-window r h =
    elim (Bool-cases
      (leb 1024 r.timestamp_head && leb (length r.timestamps) (r.timestamp_head * 2))) [
        | inl big ↦ rw big (refl, omega arith)
        | inr small ↦ rw small (refl, h)
      ]

pub prune_window :
    (now interval : ℕ) (r : RateLimitRecord)
    → HasHead r
    → (window (prune_timestamps now interval r)
        ≡ drop (expired_count now interval (window r)) (window r))
      × HasHead (prune_timestamps now interval r)
unfolding prune_timestamps
prune_window now interval r h =
    let past = expired_count now interval (window r) in
    let head = record r { timestamp_head = r.timestamp_head + past } in
    let fits : HasHead head = omega (
      arith,
      expired_count-le now interval (window r),
      length-drop r.timestamp_head r.timestamps,
    ) in
    let (same, ok) = compact-window head fits in
    (same ∙ drop_add r.timestamp_head past r.timestamps, ok)

pub push_window :
    (now : ℕ) (r : RateLimitRecord)
    → HasHead r
    → (window (push_timestamp now r) ≡ window r ++ now ∷ []) × HasHead (push_timestamp now r)
push_window now r h = (
  drop-snoc r.timestamp_head r.timestamps now h,
  omega (arith, length-append r.timestamps (now ∷ [])),
)

-- All admissions of a record, newest first: one that stands `limit` places behind another is at
-- least `interval` older. So no window of that length has more than `limit` of them.
abbrev pub IsSpaced : ℕ → ℕ → List ℕ → Type 0
IsSpaced limit interval [] = Unit
IsSpaced limit interval (t ∷ ts) =
    ((s : ℕ) → get_elem? (t ∷ ts) limit ≡ some s → s + interval ≤ t) × IsSpaced limit interval ts

-- The window is what is left of the history, but for the admissions `old` that have left it.
pub record IsWindow (o : Options) (now : ℕ) (r : RateLimitRecord) (history : List ℕ) : Type 0 where
  pub old : List ℕ
  pub split : history ≡ rev (window r) old
  pub past : All (λ t. t + o.interval ≤ now) old
  pub spaced : IsSpaced o.max_requests o.interval history
  pub head : HasHead r

-- `n` admissions at the time `now`.
abbrev pub admit_times : ℕ → ℕ → List ℕ → List ℕ
admit_times zero now history = history
admit_times (suc n) now history = admit_times n now (now ∷ history)

module _ (o : Options) where
  pub later_IsWindow :
      (now later : ℕ) (r : RateLimitRecord) (history : List ℕ)
      → now ≤ later
      → IsWindow o now r history
      → IsWindow o later r history
  later_IsWindow now later r history h w = record {
    old = w.old;
    split = w.split;
    past = All-mono _ _ (λ t p. omega arith) w.old w.past;
    spaced = w.spaced;
    head = w.head;
  }

  pruned_split :
      (now : ℕ) (ts old : List ℕ)
      → All (λ t. t + o.interval ≤ now) old
      → (old' : List ℕ) × (rev (drop (expired_count now o.interval ts) ts) old' ≡ rev ts old)
        × All (λ t. t + o.interval ≤ now) old'
  unfolding expired_count
  pruned_split now [] old h = (old, refl, h)
  pruned_split now (t ∷ ts) old h = elim (Bool-cases (leb (t + o.interval) now)) [
    | inl gone ↦ rw gone (pruned_split now ts (t ∷ old) (ground arith, h))
    | inr here ↦ rw here (old, refl, h)
  ]

  pub prune-IsWindow :
      (now : ℕ) (r : RateLimitRecord) (history : List ℕ)
      → IsWindow o now r history
      → IsWindow o now (prune_timestamps now o.interval r) history
  prune-IsWindow now r history w =
      let (same, head) = prune_window now o.interval r w.head in
      let (old, split, past) = pruned_split now (window r) w.old w.past in
      record {
        old = old;
        split = w.split ∙ sym split ∙ ap (λ ts. rev ts old) (sym same);
        past = past;
        spaced = w.spaced;
        head = head;
      }

  nth_back :
      (now : ℕ) (r : RateLimitRecord) (history : List ℕ) (w : IsWindow o now r history)
      → active_count r < o.max_requests
      → (s : ℕ) → get_elem? (now ∷ history) o.max_requests ≡ some s
      → get_elem? w.old (o.max_requests - 1 - length (window r)) ≡ some s
  nth_back now r history w room s e =
      let m = o.max_requests - 1 in
      let fits : m ≡ length (window r) + (m - length (window r)) =
        omega (arith, active_count-window r) in
      let before : o.max_requests ≡ suc m = omega arith in
      sym (get_elem?-rev (window r) w.old (m - length (window r)) m fits)
      ∙ ap (λ h. get_elem? h m) (sym w.split)
      ∙ ap (get_elem? (now ∷ history)) (sym before)
      ∙ e

  -- A permit is free: the admission `max_requests` places back has left the window.
  pub push-IsWindow :
      (now : ℕ) (r : RateLimitRecord) (history : List ℕ)
      → IsWindow o now r history
      → active_count r < o.max_requests
      → IsWindow o now (push_timestamp now r) (now ∷ history)
  push-IsWindow now r history w room =
      let (same, head) = push_window now r w.head in
      let k = o.max_requests - 1 - length (window r) in
      let back = λ (s : ℕ) (e : get_elem? (now ∷ history) o.max_requests ≡ some s).
        get_elem?-All (λ t. t + o.interval ≤ now) w.old k s w.past
          (nth_back now r history w room s e) in
      record {
        old = w.old;
        split =
            ap (◌∷◌ now) w.split
            ∙ sym (rev-snoc (window r) now w.old)
            ∙ ap (λ ts. rev ts w.old) (sym same);
        past = w.past;
        spaced = (back, w.spaced);
        head = head;
      }
