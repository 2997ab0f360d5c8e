-- ===== src/Stream/Chunks.antt =====
-- `decodeLines` of src/utils/parseStreamingResponse.ts finds the lines of a text however it is cut into
-- chunks.
use request.Base.{
  ℕ, ◌≡◌, refl, sym, ap, ◌∙◌, inl, inr, Bool, true, false, ◌&&◌, ◌||◌, List, [], ◌∷◌, ◌++◌, Option,
  none, some, ◌==◌, arith, if◌then◌else◌, Bool-cases, map,
}
use request.Stream.Lines.{
  Text, piece, Limits, Decoder, initial, too_large, Lines, yield, is_empty, join, measure, end_line,
  scan, skip_first, emit, decode_lines, behind_chunk,
}
use request.Stream.Reference.{
  text_of, append_assoc, append_nil, counted, fits, lines_of, text_size-append, lines_of_too_large,
  lines_of_other, lines_of_pair,
}

join-snoc : (fs : List Text) (t : Text) → join (fs ++ t ∷ []) ≡ join fs ++ t
join-snoc [] t = append_nil t
join-snoc (f ∷ fs) t = ap (◌++◌ f) (join-snoc fs t) ∙ sym (append_assoc f (join fs) t)

is_empty-append : (a t : Text) → is_empty t ≡ false → is_empty (a ++ t) ≡ false
is_empty-append [] t h = h
is_empty-append (x ∷ a) t h = refl

is_empty-nil : (t : Text) → is_empty t ≡ true → t ≡ []
is_empty-nil [] h = refl
is_empty-nil (c ∷ t) h = ground arith

solid_snoc :
    (fs : List Text) (t : Text)
    → is_empty t ≡ false
    → is_empty (fs ++ t ∷ []) ≡ is_empty (join fs ++ t)
solid_snoc [] t h = sym h
solid_snoc (f ∷ fs) t h = sym (is_empty-append (f ++ join fs) t h)

module _ (width : ℕ → ℕ) where
  -- The fragments of an unfinished line are counted, and fit.
  record Inv (lim : Limits) (d : Decoder) : Type 0 where
    sized : d.fragment_size ≡ counted width lim (join d.fragments)
    fitting : fits width lim d.event_size (join d.fragments) ≡ true
    solid : is_empty d.fragments ≡ is_empty (join d.fragments)

  abbrev sized_to : Limits → Text → Decoder → Decoder
  sized_to lim t d = record d { fragment_size = counted width lim (join d.fragments ++ t) }

  measure_lem :
      (lim : Limits) (t : Text) (d : Decoder)
      → Inv lim d
      → measure width lim t d ≡ (
          if fits width lim d.event_size (join d.fragments ++ t)
          then some (sized_to lim t d)
          else none)
  unfolding measure
  measure_lem lim t d i = ground (arith, i.sized, text_size-append width (join d.fragments) t)

  -- What follows the text `r` that is still to come.
  abbrev resume : Limits → List Text × Option Decoder → Text → Lines
  resume lim (ls, none) r = record { lines = ls; end = too_large }
  resume lim (ls, some n) r =
      emit ls (lines_of width lim n.skip_lf n.event_size (join n.fragments) r)

  abbrev Keeps : Limits → List Text × Option Decoder → Type 0
  Keeps lim (ls, none) = Unit
  Keeps lim (ls, some n) = Inv lim n

  abbrev Scans : Limits → Text → Text → Decoder → Text → Type 0
  Scans lim t chunk d r =
      (lines_of width lim false d.event_size (join d.fragments ++ t) (chunk ++ r)
        ≡ resume lim (scan width lim t chunk d) r)
      × Keeps lim (scan width lim t chunk d)

  scan_end :
      (lim : Limits) (t : Text) (d : Decoder) (r : Text)
      → Inv lim d
      → d.skip_lf ≡ false
      → Scans lim t [] d r
  unfolding scan
  scan_end lim t d r i s = elim (Bool-cases (is_empty t)) [
    | inl none_left ↦
        let same : join d.fragments ++ t ≡ join d.fragments =
          ap (◌++◌ (join d.fragments)) (is_empty-nil t none_left) ∙ append_nil (join d.fragments) in
        rw (scan, none_left) (rw (same, s) refl, i)
    | inr some_left ↦ elim (Bool-cases (fits width lim d.event_size (join d.fragments ++ t))) [
      | inl fit ↦
          rw (scan, some_left, measure_lem lim t d i, fit)
            (
              rw (join-snoc d.fragments t, s) refl,
              record {
                sized = rw (join-snoc d.fragments t) refl;
                fitting = rw (join-snoc d.fragments t) fit;
                solid = rw (join-snoc d.fragments t) (solid_snoc d.fragments t some_left);
              },
            )
      | inr long ↦
          rw (scan, some_left, measure_lem lim t d i, long)
            (
              lines_of_too_large width lim false d.event_size _ r
                  (is_empty-append (join d.fragments) t some_left) long,
              tt,
            )
    ]
  ]

  -- The decoder behind the end of the line `join d.fragments ++ t`.
  abbrev behind : Limits → Text → Bool → Decoder → Decoder
  behind lim t skip d = (end_line width t skip (sized_to lim t d)).1

  behind-Inv :
      (lim : Limits) (t : Text) (skip : Bool) (d : Decoder)
      → fits width lim d.event_size (join d.fragments ++ t) ≡ true
      → Inv lim (behind lim t skip d)
  behind-Inv lim t skip d fit = record {
    sized = ground arith;
    fitting = ground arith;
    solid = refl;
  }

  -- The reference at the end of a line that fits.
  line_read :
      (lim : Limits) (t : Text) (c : ℕ) (u : Text) (d : Decoder)
      → (c == b'\n' || c == b'\r') ≡ true
      → fits width lim d.event_size (join d.fragments ++ t) ≡ true
      → lines_of width lim false d.event_size (join d.fragments ++ t) (c ∷ u)
        ≡ yield
            (join d.fragments ++ t)
            (lines_of width lim (c == b'\r') (behind lim t false d).event_size [] u)
  unfolding lines_of
  line_read lim t c u d ends fit = rw (lines_of, ends, fit) refl

  line_refused :
      (lim : Limits) (t : Text) (c : ℕ) (u : Text) (d : Decoder)
      → (c == b'\n' || c == b'\r') ≡ true
      → fits width lim d.event_size (join d.fragments ++ t) ≡ false
      → lines_of width lim false d.event_size (join d.fragments ++ t) (c ∷ u)
        ≡ record { lines = []; end = too_large }
  unfolding lines_of
  line_refused lim t c u d ends long = rw (lines_of, ends, long) refl

  text_read :
      (lim : Limits) (t : Text) (c : ℕ) (u : Text) (d : Decoder)
      → (c == b'\n' || c == b'\r') ≡ false
      → lines_of width lim false d.event_size (join d.fragments ++ t) (c ∷ u)
        ≡ lines_of width lim false d.event_size (join d.fragments ++ (t ++ c ∷ [])) u
  unfolding lines_of
  text_read lim t c u d inside =
      rw (lines_of, inside, append_assoc (join d.fragments) t (c ∷ [])) refl

  resume_cons :
      (lim : Limits) (l : Text) (o : List Text × Option Decoder) (r : Text)
      → Keeps lim o
      → (yield l (resume lim o r) ≡ resume lim (l ∷ o.0, o.1) r) × Keeps lim (l ∷ o.0, o.1)
  resume_cons lim l (ls, none) r k = (refl, tt)
  resume_cons lim l (ls, some n) r k = (refl, k)

  scan_Scans :
      (lim : Limits) (t chunk : Text) (d : Decoder) (r : Text)
      → Inv lim d
      → d.skip_lf ≡ false
      → Scans lim t chunk d r
  unfolding scan
  scan_Scans lim t [] d r i s = scan_end lim t d r i s
  scan_Scans lim t (c ∷ []) d r i s = elim (Bool-cases (c == b'\n' || c == b'\r')) [
    | inr inside ↦
        rw (scan, inside, text_read lim t c r d inside) (scan_Scans lim (t ++ c ∷ []) [] d r i s)
    | inl ends ↦ elim (Bool-cases (fits width lim d.event_size (join d.fragments ++ t))) [
      | inr long ↦
          rw (scan, ends, measure_lem lim t d i, long) (line_refused lim t c r d ends long, tt)
      | inl fit ↦
          rw (scan, ends, measure_lem lim t d i, fit)
            (line_read lim t c r d ends fit, behind-Inv lim t (c == b'\r') d fit)
    ]
  ]
  scan_Scans lim t (c ∷ e ∷ u) d r i s = elim (Bool-cases (c == b'\n' || c == b'\r')) [
    | inr inside ↦
        rw (scan, inside, text_read lim t c (e ∷ u ++ r) d inside)
          (scan_Scans lim (t ++ c ∷ []) (e ∷ u) d r i s)
    | inl ends ↦ elim (Bool-cases (fits width lim d.event_size (join d.fragments ++ t))) [
      | inr long ↦
          rw (scan, ends, measure_lem lim t d i, long)
            (line_refused lim t c (e ∷ u ++ r) d ends long, tt)
      | inl fit ↦
          let next = behind lim t false d in
          let j = behind-Inv lim t false d fit in
          let line = join d.fragments ++ t in
          elim (Bool-cases (c == b'\r' && e == b'\n')) [
            | inl pair ↦
                let later = scan_Scans lim [] u next r j refl in
                rw (scan, ends, measure_lem lim t d i, fit, pair)
                  (
                    line_read lim t c (e ∷ u ++ r) d ends fit
                        ∙ ap (yield line) (
                            lines_of_pair width lim (c == b'\r') next.event_size [] e (u ++ r) pair
                            ∙ later.0)
                        ∙ (resume_cons lim line (scan width lim [] u next) r later.1).0,
                    (resume_cons lim line (scan width lim [] u next) r later.1).1,
                  )
            | inr single ↦
                let later = scan_Scans lim [] (e ∷ u) next r j refl in
                rw (scan, ends, measure_lem lim t d i, fit, single)
                  (
                    line_read lim t c (e ∷ u ++ r) d ends fit
                        ∙ ap (yield line) (
                            lines_of_other width lim (c == b'\r') next.event_size [] e (u ++ r)
                              single
                            ∙ later.0)
                        ∙ (resume_cons lim line (scan width lim [] (e ∷ u) next) r later.1).0,
                    (resume_cons lim line (scan width lim [] (e ∷ u) next) r later.1).1,
                  )
          ]
    ]
  ]

  skip_first-Inv :
      (lim : Limits) (chunk : Text) (d : Decoder) → Inv lim d → Inv lim (skip_first chunk d).1
  skip_first-Inv lim [] d i = i
  skip_first-Inv lim (c ∷ t) d i = record { sized = i.sized; fitting = i.fitting; solid = i.solid }

  after_scan :
      (lim : Limits) (o : List Text × Option Decoder) (ts : List Text)
      → Keeps lim o
      → ((n : Decoder)
          → Inv lim n
          → decode_lines width lim n (map piece ts)
            ≡ lines_of width lim n.skip_lf n.event_size (join n.fragments) (text_of ts))
      → behind_chunk width lim o (map piece ts) ≡ resume lim o (text_of ts)
  after_scan lim (ls, none) ts k more = refl
  after_scan lim (ls, some n) ts k more = ap (emit ls) (more n k)

  -- A line feed behind a carriage return is passed over at the start of a chunk.
  first_skipped :
      (lim : Limits) (c : ℕ) (t r : Text) (d : Decoder)
      → lines_of width lim d.skip_lf d.event_size (join d.fragments) (c ∷ t ++ r)
        ≡ lines_of width lim false d.event_size
            (join d.fragments ++ [])
            ((skip_first (c ∷ t) d).0 ++ r)
  first_skipped lim c t r d = elim (Bool-cases (d.skip_lf && c == b'\n')) [
    | inl pair ↦
        rw (pair, append_nil (join d.fragments))
          (lines_of_pair width lim d.skip_lf d.event_size (join d.fragments) c (t ++ r) pair)
    | inr other ↦
        rw (other, append_nil (join d.fragments))
          (lines_of_other width lim d.skip_lf d.event_size (join d.fragments) c (t ++ r) other)
  ]

  decode_lines_from :
      (lim : Limits) (ts : List Text) (d : Decoder)
      → Inv lim d
      → decode_lines width lim d (map piece ts)
        ≡ lines_of width lim d.skip_lf d.event_size (join d.fragments) (text_of ts)
  unfolding decode_lines lines_of scan
  decode_lines_from lim [] d i = elim (Bool-cases (is_empty (join d.fragments))) [
    | inl none_left ↦ rw (i.solid, lines_of, none_left) refl
    | inr some_left ↦ rw (i.solid, lines_of, some_left, i.fitting) refl
  ]
  decode_lines_from lim ([] ∷ ts) d i = decode_lines_from lim ts d i
  decode_lines_from lim ((c ∷ t) ∷ ts) d i =
      let (u, s) = skip_first (c ∷ t) d in
      let done = scan_Scans lim [] u s (text_of ts) (skip_first-Inv lim (c ∷ t) d i) refl in
      after_scan lim (scan width lim [] u s) ts done.1 (λ n. decode_lines_from lim ts n)
      ∙ sym (first_skipped lim c t (text_of ts) d ∙ done.0)

  initial-Inv : (lim : Limits) → Inv lim initial
  initial-Inv lim = record { sized = ground arith; fitting = ground arith; solid = refl }

  -- However a text is cut into chunks, the lines that are decoded, and whether they end with the text or
  -- above a limit, are those of the whole text.
  pub decode_lines-eq-lines_of :
      (lim : Limits) (ts : List Text)
      → decode_lines width lim initial (map piece ts) ≡ lines_of width lim false 0 [] (text_of ts)
  decode_lines-eq-lines_of lim ts = decode_lines_from lim ts initial (initial-Inv lim)
