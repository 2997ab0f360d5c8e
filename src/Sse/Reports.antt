-- ===== src/Sse/Reports.antt =====
-- The reports of an observed stream of server-sent events, src/client/observeSse.ts.
use request.Base.{
  ◌≡◌, refl, sym, subst, Bool, true, false, ◌||◌, List, [], ◌∷◌, ◌++◌, Option, none, some, arith,
  if◌then◌else◌, if_elim, if_cases,
}
use request.Sse.Observe.{
  SseState, connecting, open_state, reconnecting, closed, errored, same_state, is_last, Observed,
  is_over, notify, notify_all, unobserved, StreamEnd, completes, stops, throws, last_reports,
  observe,
}

-- The states, the last first: each differs from the one before, which is not a last one, and the first is
-- `connecting`.
abbrev pub IsCourse : List SseState → Type 0
IsCourse [] = ⊥
IsCourse (s ∷ []) = s ≡ connecting
IsCourse (s ∷ t ∷ ts) = (same_state t s ≡ false) × (is_last t ≡ false) × IsCourse (t ∷ ts)

abbrev pub latest : List SseState → Option SseState
latest [] = none
latest (s ∷ ss) = some s

abbrev pub Follows : Observed → Type 0
Follows o = (o.current ≡ latest o.told) × IsCourse o.told

abbrev told_of : Option SseState → List SseState → Observed
told_of c ss = record { current = c; told = ss }

notify-Follows : (s : SseState) (o : Observed) → Follows o → Follows (notify s o)
unfolding notify
notify-Follows s o h = follows o.current o.told h
  where
    follows :
        (c : Option SseState) (ss : List SseState)
        → Follows (told_of c ss)
        → Follows (notify s (told_of c ss))
    follows c [] (e, h) = absurd h
    follows none (t ∷ ts) (e, h) = absurd (ground (arith, e))
    follows (some c) (t ∷ ts) (e, h) =
        if_cases Follows (same_state c s || is_last c) _ _ (λ old. (e, h))
          (λ new. (refl, (ground (arith, e, new), ground (arith, e, new), h)))

same_state-is_last : (c s : SseState) → same_state c s ≡ true → is_last c ≡ is_last s
same_state-is_last connecting connecting e = refl
same_state-is_last connecting open_state e = refl
same_state-is_last connecting reconnecting e = refl
same_state-is_last connecting closed e = absurd (ground (arith, e))
same_state-is_last connecting errored e = absurd (ground (arith, e))
same_state-is_last open_state connecting e = refl
same_state-is_last open_state open_state e = refl
same_state-is_last open_state reconnecting e = refl
same_state-is_last open_state closed e = absurd (ground (arith, e))
same_state-is_last open_state errored e = absurd (ground (arith, e))
same_state-is_last reconnecting connecting e = refl
same_state-is_last reconnecting open_state e = refl
same_state-is_last reconnecting reconnecting e = refl
same_state-is_last reconnecting closed e = absurd (ground (arith, e))
same_state-is_last reconnecting errored e = absurd (ground (arith, e))
same_state-is_last closed connecting e = absurd (ground (arith, e))
same_state-is_last closed open_state e = absurd (ground (arith, e))
same_state-is_last closed reconnecting e = absurd (ground (arith, e))
same_state-is_last closed closed e = refl
same_state-is_last closed errored e = refl
same_state-is_last errored connecting e = absurd (ground (arith, e))
same_state-is_last errored open_state e = absurd (ground (arith, e))
same_state-is_last errored reconnecting e = absurd (ground (arith, e))
same_state-is_last errored closed e = refl
same_state-is_last errored errored e = refl

notify_all-Follows : (ss : List SseState) (o : Observed) → Follows o → Follows (notify_all ss o)
unfolding notify_all
notify_all-Follows [] o h = h
notify_all-Follows (s ∷ ss) o h = notify_all-Follows ss (notify s o) (notify-Follows s o h)

notify-ends : (s : SseState) (o : Observed) → is_last s ≡ true → is_over (notify s o).current ≡ true
unfolding notify
notify-ends s o h = ends o.current
  where
    ends : (c : Option SseState) → is_over (notify s (told_of c o.told)).current ≡ true
    ends none = h
    ends (some c) = ground (arith, h, same_state-is_last c s)

notify_all-append :
    (ss ts : List SseState) (o : Observed)
    → notify_all (ss ++ ts) o ≡ notify_all ts (notify_all ss o)
unfolding notify_all
notify_all-append [] ts o = refl
notify_all-append (s ∷ ss) ts o = notify_all-append ss ts (notify s o)

last_reports-over :
    (end : StreamEnd) (o : Observed) → is_over (notify_all (last_reports end) o).current ≡ true
unfolding notify_all
last_reports-over completes o = notify-ends closed o refl
last_reports-over stops o = notify-ends closed o refl
last_reports-over (throws a) o = notify-ends closed (notify (if a then closed else errored) o) refl

-- What an observer is told, whatever the connection reports and however the stream ends: first that it is
-- connecting, never the same state twice in a row, and as the last report, and only there, that it is
-- closed or errored.
pub observe-IsCourse :
    (early : Bool) (reports : List SseState) (end : StreamEnd)
    → let told = (observe early reports end).told in IsCourse told × (is_over (latest told) ≡ true)
unfolding observe notify
observe-IsCourse early reports end =
    let started = notify connecting unobserved in
    let begun = if early then notify closed started else started in
    let final = notify_all (reports ++ last_reports end) begun in
    let first : Follows started = (refl, refl) in
    let course : Follows final =
      notify_all-Follows (reports ++ last_reports end) begun
        (if_elim Follows early _ _ (notify-Follows closed started first) first) in
    (
      course.1,
      subst (λ c. is_over c ≡ true) course.0
          (subst (λ x. is_over x.current ≡ true)
            (sym (notify_all-append reports (last_reports end) begun))
            (last_reports-over end (notify_all reports begun))),
    )
