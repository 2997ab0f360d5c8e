-- ===== src/Stream/Reference.antt =====
-- The lines of a whole text, apart from any chunks: what `decodeLines` of
-- src/utils/parseStreamingResponse.ts is to find.
use request.Base.{
  ℕ, ◌+◌, ◌≡◌, refl, ap, inl, inr, Bool, true, false, ◌&&◌, ◌||◌, List, [], ◌∷◌, ◌++◌, ◌==◌, arith,
  if◌then◌else◌, Bool-cases,
}
use request.Stream.Lines.{
  Text, Limits, finished, too_large, Lines, yield, is_empty, within, is_limited, text_size,
}

-- What chunks make together.
abbrev pub text_of : List Text → Text
text_of [] = []
text_of (t ∷ ts) = t ++ text_of ts

is_empty-snoc : (t : Text) (c : ℕ) → is_empty (t ++ c ∷ []) ≡ false
is_empty-snoc [] c = refl
is_empty-snoc (x ∷ t) c = refl

pub append_assoc : (a b c : Text) → (a ++ b) ++ c ≡ a ++ (b ++ c)
append_assoc [] b c = refl
append_assoc (x ∷ a) b c = ap (◌∷◌ x) (append_assoc a b c)

pub append_nil : (a : Text) → a ++ [] ≡ a
append_nil [] = refl
append_nil (x ∷ a) = ap (◌∷◌ x) (append_nil a)

module _ (width : ℕ → ℕ) where
  -- What counts of a line of the text `t`.
  abbrev pub counted : Limits → Text → ℕ
  counted lim t = if is_limited lim then text_size width t else 0

  -- A line fits in the limits, behind the lines of its event that count `ev`.
  abbrev pub fits : Limits → ℕ → Text → Bool
  fits lim ev t = within lim.line (counted lim t) && within lim.event (ev + counted lim t)

  -- The lines of a text from a point inside a line of which `t` is read: a line ends at a line feed, a
  -- carriage return, or both in a row; `cr` says that a carriage return came last.
  unfoldable pub lines_of : Limits → Bool → ℕ → Text → Text → Lines
  lines_of lim cr ev t [] =
      if is_empty t
      then record { lines = []; end = finished }
      else if fits lim ev t
      then record { lines = t ∷ []; end = finished }
      else record { lines = []; end = too_large }
  lines_of lim cr ev t (c ∷ r) = elim (cr && c == b'\n') [
    | true ↦ lines_of lim false ev t r
    | false ↦ elim (c == b'\n' || c == b'\r') [
      | false ↦ lines_of lim false ev (t ++ c ∷ []) r
      | true ↦ elim (fits lim ev t) [
        | false ↦ record { lines = []; end = too_large }
        | true ↦
            yield t (lines_of lim (c == b'\r') (if is_empty t then 0 else ev + counted lim t) [] r)
      ]
    ]
  ]

  pub text_size-append :
      (t u : Text) → text_size width (t ++ u) ≡ text_size width t + text_size width u
  text_size-append [] u = omega arith
  text_size-append (c ∷ t) u = omega (arith, text_size-append t u)

  fits-append :
      (lim : Limits) (ev : ℕ) (t u : Text) → fits lim ev t ≡ false → fits lim ev (t ++ u) ≡ false
  fits-append lim ev t u h = ground (arith, text_size-append t u)

  -- A line that is too long already ends the reading.
  pub lines_of_too_large :
      (lim : Limits) (cr : Bool) (ev : ℕ) (t r : Text)
      → is_empty t ≡ false
      → fits lim ev t ≡ false
      → lines_of lim cr ev t r ≡ record { lines = []; end = too_large }
  unfolding lines_of
  lines_of_too_large lim cr ev t [] e h = rw (e, h) refl
  lines_of_too_large lim cr ev t (c ∷ r) e h = elim (Bool-cases (cr && c == b'\n')) [
    | inl skipped ↦ rw (skipped, lines_of) (lines_of_too_large lim false ev t r e h)
    | inr kept ↦ elim (Bool-cases (c == b'\n' || c == b'\r')) [
      | inl ends ↦ rw (kept, lines_of, ends, h) refl
      | inr inside ↦
          rw (kept, lines_of, inside)
            (lines_of_too_large lim false ev (t ++ c ∷ []) r (is_empty-snoc t c)
              (fits-append lim ev t (c ∷ []) h))
    ]
  ]

  -- A carriage return before another character than a line feed is forgotten.
  pub lines_of_other :
      (lim : Limits) (cr : Bool) (ev : ℕ) (t : Text) (e : ℕ) (r : Text)
      → (cr && e == b'\n') ≡ false
      → lines_of lim cr ev t (e ∷ r) ≡ lines_of lim false ev t (e ∷ r)
  unfolding lines_of
  lines_of_other lim cr ev t e r h = rw (lines_of, h) refl

  pub lines_of_pair :
      (lim : Limits) (cr : Bool) (ev : ℕ) (t : Text) (e : ℕ) (r : Text)
      → (cr && e == b'\n') ≡ true
      → lines_of lim cr ev t (e ∷ r) ≡ lines_of lim false ev t r
  unfolding lines_of
  lines_of_pair lim cr ev t e r h = rw (lines_of, h) refl
