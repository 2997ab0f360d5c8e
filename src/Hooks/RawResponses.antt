-- ===== src/Hooks/RawResponses.antt =====
-- The response hooks of `PluginHooks`, src/interceptors/PluginHooks.ts, and its count of those that need
-- the raw response.
use request.Base.{
  ℕ, ◌+◌, ◌-◌, ◌<◌, ◌≡◌, refl, sym, subst, Bool, true, false, List, [], ◌∷◌, Option, some, arith,
  length, if◌then◌else◌, ltb, ◌==◌, Bool-cases, inl, inr, if_elim,
}
use request.Hooks.Entries.{Priority}
use request.Hooks.Registry.{HookRegistry, no_hooks, register, dispose}
use request.Hooks.Scope.{contains, without}

-- `active` has the ids whose disposer still counts.
pub record ResponseHooks {ℓ} (A : Type ℓ) : Type ℓ where
  pub registry : HookRegistry A
  pub raw_response_hooks : ℕ
  pub active : List ℕ

-- `options.requiresRawResponse === false`
abbrev pub is_exempt : Option Bool → Bool
is_exempt (some false) = true
is_exempt _ = false

module _ {ℓ} {A : Type ℓ} where
  abbrev pub no_response_hooks : ResponseHooks A
  no_response_hooks = record { registry = no_hooks; raw_response_hooks = 0; active = [] }

  unfoldable pub on_response : A → Priority → Option Bool → ResponseHooks A → ResponseHooks A
  on_response a p requires_raw r =
      let added = record r { registry = register a p r.registry } in
      if is_exempt requires_raw then added else record added {
        raw_response_hooks = r.raw_response_hooks + 1;
        active = r.registry.next_id ∷ r.active;
      }

  -- The disposer of the registration with an id.
  unfoldable pub dispose_response : ℕ → ResponseHooks A → ResponseHooks A
  dispose_response i r =
      let disposed = record r { registry = dispose i r.registry } in
      if contains i r.active
      then record disposed {
        raw_response_hooks = r.raw_response_hooks - 1;
        active = without i r.active;
      }
      else disposed

  abbrev pub has_raw_response_hooks : ResponseHooks A → Bool
  has_raw_response_hooks r = ltb 0 r.raw_response_hooks

-- Every id stands once and is below the next.
abbrev pub IsCounted : ℕ → List ℕ → Type 0
IsCounted next [] = Unit
IsCounted next (j ∷ js) = (j < next) × (contains j js ≡ false) × IsCounted next js

IsCounted-later : (next : ℕ) (js : List ℕ) → IsCounted next js → IsCounted (next + 1) js
IsCounted-later next [] h = tt
IsCounted-later next (j ∷ js) (below, once, h) = (omega arith, once, IsCounted-later next js h)

contains_below : (next : ℕ) (js : List ℕ) → IsCounted next js → contains next js ≡ false
contains_below next [] h = refl
contains_below next (j ∷ js) (below, once, h) = ground (arith, contains_below next js h)

contains-without-false :
    (i j : ℕ) (js : List ℕ) → contains i js ≡ false → contains i (without j js) ≡ false
contains-without-false i j [] h = refl
contains-without-false i j (x ∷ js) h = ground (arith, contains-without-false i j js)

without-IsCounted : (next i : ℕ) (js : List ℕ) → IsCounted next js → IsCounted next (without i js)
without-IsCounted next i [] h = tt
without-IsCounted next i (j ∷ js) (below, once, h) =
    let rest = without-IsCounted next i js h in
    if_elim (IsCounted next) (j == i) _ _ rest (below, contains-without-false j i js once, rest)

length-without_absent :
    (i : ℕ) (js : List ℕ) → contains i js ≡ false → length (without i js) ≡ length js
length-without_absent i [] h = refl
length-without_absent i (j ∷ js) h = ground (arith, length-without_absent i js)

contains_some : (i : ℕ) (js : List ℕ) → contains i js ≡ true → 0 < length js
contains_some i [] h = ground arith
contains_some i (j ∷ js) h = omega arith

length-without :
    (next i : ℕ) (js : List ℕ)
    → IsCounted next js
    → contains i js ≡ true
    → length (without i js) ≡ length js - 1
length-without next i [] h c = ground arith
length-without next i (j ∷ js) (below, once, h) c = elim (Bool-cases (j == i)) [
  | inl here ↦ ground (arith, here, once, length-without_absent i js)
  | inr other ↦ ground (arith, other, c, length-without next i js h, contains_some i js)
]

module _ {ℓ} {A : Type ℓ} where
  -- The count is that of the registrations that count and were not disposed of.
  abbrev pub Counts : ResponseHooks A → Type 0
  Counts r = IsCounted r.registry.next_id r.active × (r.raw_response_hooks ≡ length r.active)

  dispose_next : (i : ℕ) (h : HookRegistry A) → (dispose i h).next_id ≡ h.next_id
  unfolding dispose
  dispose_next i h = ground arith

  pub on_response-Counts :
      (a : A) (p : Priority) (requires_raw : Option Bool) (r : ResponseHooks A)
      → Counts r
      → Counts (on_response a p requires_raw r)
  unfolding on_response register
  on_response-Counts a p requires_raw r (counted, same) =
      let next = r.registry.next_id in
      let later = IsCounted-later next r.active counted in
      if_elim Counts (is_exempt requires_raw) _ _ (later, same)
        ((omega arith, contains_below next r.active counted, later), omega (arith, same))

  pub dispose_response-Counts :
      (i : ℕ) (r : ResponseHooks A) → Counts r → Counts (dispose_response i r)
  unfolding dispose_response
  dispose_response-Counts i r (counted, same) =
      let next = r.registry.next_id in
      let after : (dispose i r.registry).next_id ≡ next = dispose_next i r.registry in
      let disposed : ResponseHooks A = record r { registry = dispose i r.registry } in
      let fewer : ResponseHooks A = record disposed {
        raw_response_hooks = r.raw_response_hooks - 1;
        active = without i r.active;
      } in
      elim (Bool-cases (contains i r.active)) [
        | inl there ↦
            subst (λ b. Counts (if b then fewer else disposed)) (sym there)
              (
                subst (λ n. IsCounted n (without i r.active)) (sym after)
                    (without-IsCounted next i r.active counted),
                ground (arith, same, length-without next i r.active counted there),
              )
        | inr gone ↦
            subst (λ b. Counts (if b then fewer else disposed)) (sym gone)
              (subst (λ n. IsCounted n r.active) (sym after) counted, same)
      ]
