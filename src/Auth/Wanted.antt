-- ===== src/Auth/Wanted.antt =====
-- The invariant of the shared refresh of src/plugins/authPlugin.ts, and the moves of a refresh that keep it.
use request.Base.{
  ℕ, ◌+◌, ◌<◌, ◌≡◌, refl, sym, subst, Bool, true, false, ◌&&◌, ◌||◌, not, List, [], ◌∷◌, Option,
  none, some, ◌==◌, arith, if◌then◌else◌, if_cases,
}
use request.Stream.Lines.{Text, is_empty}
use request.Auth.Refresh.{
  add, Settlement, got, rejected, Phase, asking, storing, leaving, settled, Refresh, State, initial,
  at, with_refresh, with_phase, Write, phase_after, no_storage, done, pending, throws, text_of,
  with_write, is_refresh,
}

abbrev pub in_flight : Phase → Bool
in_flight (settled r) = false
in_flight p = true

abbrev pub is_asking : Phase → Bool
is_asking asking = true
is_asking p = false

abbrev pub written : ℕ → List (ℕ × Text) → Bool
written k [] = false
written k ((j, t) ∷ ws) = j == k || written k ws

-- No refresh has two writes.
abbrev pub IsDistinct : List (ℕ × Text) → Type 0
IsDistinct [] = Unit
IsDistinct ((k, t) ∷ ws) = (written k ws ≡ false) × IsDistinct ws

-- A refresh that is not over and that an installation waits for.
abbrev pub is_wanted : Refresh → Bool
is_wanted r = in_flight r.phase && not (is_empty r.installations)

-- `current` is the one refresh that is wanted; only refreshes that were started are in flight, and only those that do
-- not ask any more have begun to write, once.
pub record Inv (s : State) : Type 0 where
  pub current_wanted : (k : ℕ) → s.current ≡ some k → is_wanted (s.refreshes k) ≡ true
  pub wanted_current : (k : ℕ) → is_wanted (s.refreshes k) ≡ true → s.current ≡ some k
  pub flying_started : (k : ℕ) → in_flight (s.refreshes k).phase ≡ true → k < s.started
  pub written_after : (k : ℕ) → written k s.stored ≡ true → is_asking (s.refreshes k).phase ≡ false
  pub written_started : (k : ℕ) → written k s.stored ≡ true → k < s.started
  pub written_once : IsDistinct s.stored

pub initial-Inv : Inv initial
initial-Inv = record {
  current_wanted = λ k h. ground (arith, h);
  wanted_current = λ k h. ground (arith, h);
  flying_started = λ k h. ground (arith, h);
  written_after = λ k h. ground (arith, h);
  written_started = λ k h. ground (arith, h);
  written_once = tt;
}

-- A refresh that moves on, in flight before and after, and does not ask any more.
pub with_phase-Inv :
    (k : ℕ) (p : Phase) (s : State)
    → in_flight (s.refreshes k).phase ≡ true
    → in_flight p ≡ true
    → is_asking p ≡ false
    → Inv s
    → Inv (with_phase k p s)
with_phase-Inv k p s before after said i = record {
  current_wanted = λ j h. ground (arith, h, before, after, i.current_wanted j h);
  wanted_current = λ j h. ground (arith, h, before, after, i.wanted_current j);
  flying_started = λ j h. ground (arith, h, before, after, i.flying_started j);
  written_after = λ j h. ground (arith, h, said, i.written_after j h);
  written_started = λ j h. i.written_started j h;
  written_once = i.written_once;
}

-- The fields that the invariant does not speak of.
pub same_refreshes-Inv :
    (f g : ℕ → Bool) (n : ℕ) (s : State)
    → Inv s
    → Inv (record s { active = f; contexts = g; installed = n })
same_refreshes-Inv f g n s i = record {
  current_wanted = i.current_wanted;
  wanted_current = i.wanted_current;
  flying_started = i.flying_started;
  written_after = i.written_after;
  written_started = i.written_started;
  written_once = i.written_once;
}

-- The waiting installations of a refresh change, and with the last one it is not the current one any more.
abbrev pub with_installations : ℕ → List ℕ → State → State
with_installations k js s = record s {
  refreshes = at k (record { installations = js; phase = (s.refreshes k).phase }) s.refreshes;
  current = if is_empty js then none else some k;
}

pub with_installations-Inv :
    (k : ℕ) (js : List ℕ) (s : State) → s.current ≡ some k → Inv s → Inv (with_installations k js s)
with_installations-Inv k js s now i = record {
  current_wanted = λ j h. ground (arith, h, now, i.current_wanted k now);
  wanted_current = λ j h. ground (arith, h, now, i.current_wanted k now, i.wanted_current j);
  flying_started = λ j h. ground (arith, h, i.flying_started j);
  written_after = λ j h. ground (arith, h, i.written_after j h);
  written_started = i.written_started;
  written_once = i.written_once;
}

-- A refresh that starts while none is wanted.
pub started-Inv :
    (r : Refresh) (s : State)
    → is_wanted r ≡ true
    → s.current ≡ none
    → Inv s
    → Inv (record s {
      refreshes = at s.started r s.refreshes;
      started = s.started + 1;
      current = some s.started;
    })
started-Inv r s wanted now i = record {
  current_wanted = λ j h. ground (arith, h, wanted);
  wanted_current = λ j h. ground (arith, h, now, i.wanted_current j);
  flying_started = λ j h. ground (arith, h, i.flying_started j);
  written_after = λ j h. ground (arith, h, i.written_after j h, i.written_started j h);
  written_started = λ j h. ground (arith, h, i.written_started j h);
  written_once = i.written_once;
}

pub add-full : (n : ℕ) (js : List ℕ) → is_empty (add n js) ≡ false
add-full n [] = refl
add-full n (j ∷ js) = ground arith

pub joined-Inv :
    (k : ℕ) (js : List ℕ) (s : State)
    → s.current ≡ some k
    → is_empty js ≡ false
    → Inv s
    → Inv (with_refresh k (record { installations = js; phase = (s.refreshes k).phase }) s)
joined-Inv k js s now full i = record {
  current_wanted = λ j h. ground (arith, h, now, full, i.current_wanted k now);
  wanted_current = λ j h. ground (arith, h, now, i.wanted_current j);
  flying_started = λ j h. ground (arith, h, i.flying_started j);
  written_after = λ j h. ground (arith, h, i.written_after j h);
  written_started = i.written_started;
  written_once = i.written_once;
}

module _ {ℓ} {A : Type ℓ} (P : A → Type ℓ) where
  pub phase_cases :
      (p : Phase) (a : A) (b : Option Text → A) (c d : Settlement → A)
      → (p ≡ asking → P a)
      → ((t : Option Text) → p ≡ storing t → P (b t))
      → ((r : Settlement) → p ≡ leaving r → P (c r))
      → ((r : Settlement) → p ≡ settled r → P (d r))
      → P (elim p [ asking ↦ a | storing t ↦ b t | leaving r ↦ c r | settled r ↦ d r ])
  phase_cases asking a b c d f g h k = f refl
  phase_cases (storing t) a b c d f g h k = g t refl
  phase_cases (leaving r) a b c d f g h k = h r refl
  phase_cases (settled r) a b c d f g h k = k r refl

pub flying :
    (k : ℕ) (p : Phase) (s : State)
    → (s.refreshes k).phase ≡ p
    → in_flight p ≡ true
    → in_flight (s.refreshes k).phase ≡ true
flying k p s e h = subst (λ q. in_flight q ≡ true) (sym e) h

-- A write begins, by a refresh that asks.
with_write-Inv :
    (k : ℕ) (t : Text) (p : Phase) (s : State)
    → (s.refreshes k).phase ≡ asking
    → in_flight p ≡ true
    → is_asking p ≡ false
    → Inv s
    → Inv (record (with_phase k p s) { stored = (k, t) ∷ s.stored })
with_write-Inv k t p s e after said i =
    let moved = with_phase-Inv k p s (flying k asking s e refl) after said i in
    record {
      current_wanted = moved.current_wanted;
      wanted_current = moved.wanted_current;
      flying_started = moved.flying_started;
      written_after = λ j h. ground (arith, h, said, i.written_after j);
      written_started = λ j h. ground (arith, h, e, i.flying_started k, i.written_started j);
      written_once = (ground (arith, e, i.written_after k), i.written_once);
    }

phase_after-flies :
    (t : Option Text) (w : Write)
    → (in_flight (phase_after t w) ≡ true) × (is_asking (phase_after t w) ≡ false)
phase_after-flies t no_storage = (refl, refl)
phase_after-flies t done = (refl, refl)
phase_after-flies t pending = (refl, refl)
phase_after-flies t (throws e) = (refl, refl)

pub begins-Inv :
    (k : ℕ) (t : Option Text) (w : Write) (s : State)
    → (s.refreshes k).phase ≡ asking
    → Inv s
    → Inv
        (record (with_phase k (phase_after t w) s) { stored = with_write k (text_of t) w s.stored })
begins-Inv k t no_storage s e i =
    with_phase-Inv k (leaving (got t)) s (flying k asking s e refl) refl refl i
begins-Inv k t done s e i = with_write-Inv k (text_of t) (leaving (got t)) s e refl refl i
begins-Inv k t pending s e i = with_write-Inv k (text_of t) (storing t) s e refl refl i
begins-Inv k t (throws x) s e i =
    with_write-Inv k (text_of t) (leaving (rejected x)) s e refl refl i

-- A refresh that is over.
pub settled-Inv :
    (k : ℕ) (r : Settlement) (s : State)
    → Inv s
    → let next = with_phase k (settled r) s in
      Inv (if is_refresh k s.current then record next { current = none } else next)
settled-Inv k r s i =
    let next = with_phase k (settled r) s in
    if_cases Inv (is_refresh k s.current) _ _
      (λ same. record {
        current_wanted = λ j h. ground (arith, h);
        wanted_current = λ j h. ground (arith, h, same, i.wanted_current j);
        flying_started = λ j h. ground (arith, h, i.flying_started j);
        written_after = λ j h. ground (arith, h, i.written_after j h);
        written_started = i.written_started;
        written_once = i.written_once;
      })
      (λ other. record {
        current_wanted = λ j h. ground (arith, h, other, i.current_wanted j h);
        wanted_current = λ j h. ground (arith, h, i.wanted_current j);
        flying_started = λ j h. ground (arith, h, i.flying_started j);
        written_after = λ j h. ground (arith, h, i.written_after j h);
        written_started = i.written_started;
        written_once = i.written_once;
      })
