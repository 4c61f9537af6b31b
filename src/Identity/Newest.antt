-- ===== src/Identity/Newest.antt =====
-- The toplevel that is taken for focused, over runs of the compositor's events.
use mathlib.Core.Path.{subst}
use typiod_wayland.Prelude.{
  ℕ, ◌≤◌, ◌≡◌, ◌⊎◌, ◌&&◌, inl, inr, refl, sym, ap, ◌∙◌, Bool, true, false, List, [], ◌∷◌, Option,
  none, some, ltb, ◌==◌, if_both, Bool-cases, arith,
}
use typiod_wayland.Identity.{
  Toplevel, Provider, Identity, new_provider, best_of, update_current, bump, remove, has_handle,
  handle_done, handle_closed, list_toplevel, list_finished, handle_global, provider_bind,
  provider_unbind, handle_text, identity_of, query_current, same_display,
}

-- What reaches the provider; a text is a title, an application's name or an identifier.
pub data Event : Type 0 where
  global : Bool → Event
  toplevel : Bool → ℕ → Event
  text : Bool → Event
  done : ℕ → Event
  closed : ℕ → Event
  finished : Event
  bound : Bool → ℕ → Event
  unbound : Event

abbrev pub step : Event → Provider → Option Provider
step (Event.global b) p = some (handle_global b p)
step (Event.toplevel allocated handle) p = some (list_toplevel allocated handle p)
step (Event.text copied) p = handle_text copied p
step (Event.done handle) p = some (handle_done handle p)
step (Event.closed handle) p = some (handle_closed handle p)
step Event.finished p = some (list_finished p)
step (Event.bound registry display) p = some (provider_bind registry display p).0
step Event.unbound p = some (provider_unbind p)

-- The provider after a run, where no event made the behaviour undefined.
abbrev pub run : List Event → Option Provider → Option Provider
run [] p = p
run (ev ∷ evs) none = none
run (ev ∷ evs) (some p) = run evs (step ev p)

abbrev AllUnnamed : List Toplevel → Type 0
AllUnnamed [] = Unit {0}
AllUnnamed (t ∷ ts) = (t.app_id ≡ none) × AllUnnamed ts

-- No serial of the toplevels is above `n`.
abbrev pub AtMost : ℕ → List Toplevel → Type 0
AtMost n [] = Unit {0}
AtMost n (t ∷ ts) = (t.serial ≤ n) × AtMost n ts

abbrev pub Among : Toplevel → List Toplevel → Type 0
Among t [] = ⊥
Among t (x ∷ xs) = (t ≡ x) ⊎ Among t xs

-- One of the toplevels with the greatest serial, and none only where there are no toplevels.
abbrev pub IsNewest : Option Toplevel → List Toplevel → Type 0
IsNewest none ts = ts ≡ []
IsNewest (some t) ts = Among t ts × AtMost t.serial ts

record IsTracked (p : Provider) : Type 0 where
  newest : p.current ≡ best_of none p.toplevels
  unnamed : AllUnnamed p.toplevels

AtMost-mono : (m n : ℕ) (ts : List Toplevel) → m ≤ n → AtMost m ts → AtMost n ts
AtMost-mono m n [] h a = tt
AtMost-mono m n (t ∷ ts) h a = (omega (arith, a.0, h), AtMost-mono m n ts h a.1)

skip : (r b t : Toplevel) (ts : List Toplevel) → Among r (b ∷ ts) → Among r (b ∷ t ∷ ts)
skip r b t ts (inl e) = inl e
skip r b t ts (inr a) = inr (inr a)

best_from :
    (b : Toplevel) (ts : List Toplevel)
    → (r : Toplevel) × (best_of (some b) ts ≡ some r)
      × (b.serial ≤ r.serial)
      × AtMost r.serial ts
      × Among r (b ∷ ts)
unfolding best_of
best_from b [] = (b, refl, omega arith, tt, inl refl)
best_from b (t ∷ ts) = elim (Bool-cases (ltb b.serial t.serial)) [
  | inl e ↦
      let (r, k, le, most, among) = best_from t ts in
      (r, rw e k, ground (arith, e, le), (le, most), inr among)
  | inr e ↦
      let (r, k, le, most, among) = best_from b ts in
      (r, rw e k, le, (ground (arith, e, le), most), skip r b t ts among)
]

best-IsNewest : (ts : List Toplevel) → IsNewest (best_of none ts) ts
unfolding best_of
best-IsNewest [] = refl
best-IsNewest (t ∷ ts) =
    let (r, k, le, most, among) = best_from t ts in
    subst (λ o. IsNewest o (t ∷ ts)) (sym k) (among, (le, most))

bump-AllUnnamed :
    (handle serial : ℕ) (ts : List Toplevel) → AllUnnamed ts → AllUnnamed (bump handle serial ts)
unfolding bump
bump-AllUnnamed handle serial [] u = tt
bump-AllUnnamed handle serial (t ∷ ts) u =
    if_both AllUnnamed (t.handle == handle) (λ _. u)
      (λ _. (u.0, bump-AllUnnamed handle serial ts u.1))

remove-AllUnnamed :
    (handle : ℕ) (ts : List Toplevel) → AllUnnamed ts → AllUnnamed (remove handle ts)
unfolding remove
remove-AllUnnamed handle [] u = tt
remove-AllUnnamed handle (t ∷ ts) u =
    if_both AllUnnamed (t.handle == handle) (λ _. u.1) (λ _. (u.0, remove-AllUnnamed handle ts u.1))

handle_done-IsTracked : (handle : ℕ) (p : Provider) → IsTracked p → IsTracked (handle_done handle p)
unfolding handle_done
handle_done-IsTracked handle p k =
    if_both (λ (q : Provider). IsTracked (update_current q)) (has_handle handle p.toplevels)
      (λ _. record {
        newest = refl;
        unnamed = bump-AllUnnamed handle p.next_serial p.toplevels k.unnamed;
      })
      (λ _. record { newest = refl; unnamed = k.unnamed })

list_toplevel-IsTracked :
    (allocated : Bool) (handle : ℕ) (p : Provider)
    → IsTracked p
    → IsTracked (list_toplevel allocated handle p)
unfolding list_toplevel
list_toplevel-IsTracked true handle p k = record { newest = refl; unnamed = (refl, k.unnamed) }
list_toplevel-IsTracked false handle p k = k

provider_bind-IsTracked :
    (registry : Bool) (display : ℕ) (p : Provider)
    → IsTracked p
    → IsTracked (provider_bind registry display p).0
unfolding provider_bind best_of
provider_bind-IsTracked registry display p k =
    let T = λ (r : Provider × Bool). IsTracked r.0 in
    if_both T (same_display p.display display && p.registry) (λ _. k)
      (λ _.
        if_both T registry (λ _. record { newest = refl; unnamed = tt })
          (λ _. record { newest = refl; unnamed = tt }))

-- A provider, where it is defined, that is tracked.
abbrev Tracked : Option Provider → Type 0
Tracked none = Unit {0}
Tracked (some p) = IsTracked p

step-Tracked : (ev : Event) (p : Provider) → IsTracked p → Tracked (step ev p)
unfolding handle_global handle_closed list_finished provider_unbind handle_text best_of
step-Tracked (Event.global b) p k = record { newest = k.newest; unnamed = k.unnamed }
step-Tracked (Event.toplevel allocated handle) p k = list_toplevel-IsTracked allocated handle p k
step-Tracked (Event.text true) p k = tt
step-Tracked (Event.text false) p k = k
step-Tracked (Event.done handle) p k = handle_done-IsTracked handle p k
step-Tracked (Event.closed handle) p k = record {
  newest = refl;
  unnamed = remove-AllUnnamed handle p.toplevels k.unnamed;
}
step-Tracked Event.finished p k = record { newest = refl; unnamed = tt }
step-Tracked (Event.bound registry display) p k = provider_bind-IsTracked registry display p k
step-Tracked Event.unbound p k = record { newest = refl; unnamed = tt }

run-Tracked : (evs : List Event) (o : Option Provider) → Tracked o → Tracked (run evs o)
run-Tracked [] o k = k
run-Tracked (ev ∷ evs) none k = tt
run-Tracked (ev ∷ evs) (some p) k = run-Tracked evs (step ev p) (step-Tracked ev p k)

Among-unnamed : (t : Toplevel) (ts : List Toplevel) → Among t ts → AllUnnamed ts → t.app_id ≡ none
Among-unnamed t [] a u = elim a [ ]
Among-unnamed t (x ∷ xs) (inl e) u = ap (λ (y : Toplevel). y.app_id) e ∙ u.0
Among-unnamed t (x ∷ xs) (inr a) u = Among-unnamed t xs a u.1

unnamed-query :
    (had : Bool) (ts : List Toplevel) (o : Option Toplevel)
    → IsNewest o ts
    → AllUnnamed ts
    → elim o as (λ _. Option Identity) [ none ↦ none | some t ↦ identity_of had t t.app_id ] ≡ none
unnamed-query had ts none n u = refl
unnamed-query had ts (some t) n u =
    let e = Among-unnamed t ts n.0 u in ap (λ a. identity_of had t a) e

pub run-best :
    (evs : List Event) (p : Provider)
    → run evs (some new_provider) ≡ some p
    → IsNewest p.current p.toplevels
unfolding best_of
run-best evs p e =
    let k : IsTracked p =
      subst Tracked e
        (run-Tracked evs (some new_provider) (record { newest = refl; unnamed = tt })) in
    subst (λ o. IsNewest o p.toplevels) (sym k.newest) (best-IsNewest p.toplevels)

pub run-query_current :
    (evs : List Event) (p : Provider) (had : Bool)
    → run evs (some new_provider) ≡ some p
    → query_current had p ≡ none
unfolding query_current best_of
run-query_current evs p had e =
    let k : IsTracked p =
      subst Tracked e
        (run-Tracked evs (some new_provider) (record { newest = refl; unnamed = tt })) in
    unnamed-query had p.toplevels p.current (run-best evs p e) k.unnamed
