-- ===== src/Identity/Memory.antt =====
-- The engine and the mode that are kept for an application (src/wayland/foreign/identity.c). The
-- calls of libtypio are recorded; what it keeps and what its registry says is the caller's world.
use mathlib.Core.Path.{subst}
use typiod_wayland.Prelude.{
  ℕ, ◌≡◌, refl, Bool, false, not, ◌&&◌, ◌||◌, List, [], ◌∷◌, ◌++◌, Option, none, some,
  if◌then◌else◌, sym, if_both,
}
use typiod_wayland.Text.Bytes.{same_text, is_empty}
use typiod_wayland.Identity.{Provider, Identity, new_provider, query_current}
use typiod_wayland.Identity.Newest.{Event, run, run-query_current}

pub data MemoryCall : Type 0 where
  set_active_keyboard : List ℕ → MemoryCall
  set_active_mode : List ℕ → MemoryCall
  store_engine : List ℕ → List ℕ → List ℕ → MemoryCall
  store_mode : List ℕ → List ℕ → List ℕ → List ℕ → MemoryCall

-- The frontend, as far as it keeps an identity; an identity is none where its texts are null.
pub record Remembering : Type 0 where
  pub provider : Option Provider
  pub current_identity : Option Identity
  pub session : Bool
  pub ctx : Bool
  pub calls : List MemoryCall

-- What libtypio answers: whether there is an instance with its preferences enabled, what it kept
-- for an application (a mode with its engine), and, after the calls made, the active engine and the
-- mode it told last.
pub record MemoryWorld : Type 0 where
  pub instance_set : Bool
  pub preferences_enabled : Bool
  pub load_engine : Identity → Option (List ℕ)
  pub load_mode : Identity → Option (List ℕ × List ℕ)
  pub registry : Bool
  pub active_keyboard : List MemoryCall → Option (List ℕ)
  pub last_mode : List MemoryCall → Option (List ℕ)

abbrev pub told : MemoryCall → Remembering → Remembering
told c r = record r { calls = r.calls ++ c ∷ [] }

-- `typio_wl_frontend_clear_identity`
abbrev pub clear_identity : Remembering → Remembering
clear_identity r = record r { current_identity = none }

abbrev pub queried : Bool → Option Provider → Option Identity
queried had none = none
queried had (some p) = query_current had p

-- `typio_wl_frontend_refresh_identity`
unfoldable pub refresh_identity : Bool → Remembering → Remembering
refresh_identity had r = record r { current_identity = queried had r.provider }

abbrev pub is_text : Option (List ℕ) → List ℕ → Bool
is_text none text = false
is_text (some t) text = same_text t text

abbrev pub active : MemoryWorld → Remembering → Option (List ℕ)
active w r = if w.registry then w.active_keyboard r.calls else none

-- The mode that is kept, with its engine.
abbrev pub push_mode : MemoryWorld → Option (List ℕ × List ℕ) → Remembering → Remembering
push_mode w none r = r
push_mode w (some (engine, mode)) r =
    if not (is_text (active w r) engine) || is_text (w.last_mode r.calls) mode
    then r
    else told (set_active_mode mode) r

-- `identity_restore_mode` for an identity
unfoldable pub restore_mode : MemoryWorld → Identity → Remembering → Remembering
restore_mode w i r = if r.session && r.ctx then push_mode w (w.load_mode i) r else r

-- The engine that is kept, where it is not the active one.
abbrev pub push_engine : MemoryWorld → Option (List ℕ) → Remembering → Remembering
push_engine w none r = r
push_engine w (some engine) r =
    if is_empty engine || is_text (active w r) engine || not w.registry
    then r
    else told (set_active_keyboard engine) r

abbrev restore_of : MemoryWorld → Option Identity → Remembering → Remembering
restore_of w none r = r
restore_of w (some i) r = restore_mode w i (push_engine w (w.load_engine i) r)

-- `typio_wl_frontend_restore_identity_engine`
unfoldable pub restore_identity_engine : MemoryWorld → Remembering → Remembering
restore_identity_engine w r =
    if not w.instance_set || not w.preferences_enabled then r else restore_of w r.current_identity r

abbrev remember_of : Option Identity → (Identity → MemoryCall) → Remembering → Remembering
remember_of none c r = r
remember_of (some i) c r = told (c i) r

-- `typio_wl_frontend_remember_active_engine`
unfoldable pub remember_active_engine : MemoryWorld → List ℕ → Remembering → Remembering
remember_active_engine w engine r =
    if not w.instance_set || is_empty engine || not w.preferences_enabled
    then r
    else remember_of r.current_identity (λ i. store_engine i.provider_name i.app_id engine) r

-- `typio_wl_frontend_remember_active_mode`
unfoldable pub remember_active_mode : MemoryWorld → List ℕ → List ℕ → Remembering → Remembering
remember_active_mode w engine mode r =
    if not w.instance_set || is_empty engine || is_empty mode || not w.preferences_enabled
    then r
    else remember_of r.current_identity (λ i. store_mode i.provider_name i.app_id engine mode) r

no_identity-restore :
    (w : MemoryWorld) (r : Remembering)
    → r.current_identity ≡ none
    → restore_identity_engine w r ≡ r
unfolding restore_identity_engine
no_identity-restore w r e =
    if_both (λ (q : Remembering). q ≡ r) (not w.instance_set || not w.preferences_enabled)
      (λ _. refl) (λ _. subst (λ o. restore_of w o r ≡ r) (sym e) refl)

no_identity-remember_engine :
    (w : MemoryWorld) (engine : List ℕ) (r : Remembering)
    → r.current_identity ≡ none
    → remember_active_engine w engine r ≡ r
unfolding remember_active_engine
no_identity-remember_engine w engine r e =
    if_both (λ (q : Remembering). q ≡ r)
      (not w.instance_set || is_empty engine || not w.preferences_enabled) (λ _. refl)
      (λ _.
        let c = λ (i : Identity). store_engine i.provider_name i.app_id engine in
        subst (λ o. remember_of o c r ≡ r) (sym e) refl)

no_identity-remember_mode :
    (w : MemoryWorld) (engine mode : List ℕ) (r : Remembering)
    → r.current_identity ≡ none
    → remember_active_mode w engine mode r ≡ r
unfolding remember_active_mode
no_identity-remember_mode w engine mode r e =
    if_both (λ (q : Remembering). q ≡ r)
      (not w.instance_set || is_empty engine || is_empty mode || not w.preferences_enabled)
      (λ _. refl)
      (λ _.
        let c = λ (i : Identity). store_mode i.provider_name i.app_id engine mode in
        subst (λ o. remember_of o c r ≡ r) (sym e) refl)

-- Whatever the compositor advertises, in every run that C defines: once the identity is refreshed
-- from the provider, no engine and no mode is restored, and none is remembered, since no toplevel
-- has the name of its application.
refresh_identity-restore :
    (evs : List Event) (p : Provider) (had : Bool) (w : MemoryWorld) (engine mode : List ℕ)
    (r : Remembering)
    → run evs (some new_provider) ≡ some p
    → r.provider ≡ some p
    → let q = refresh_identity had r in
      (restore_identity_engine w q ≡ q)
      × (remember_active_engine w engine q ≡ q)
      × (remember_active_mode w engine mode q ≡ q)
unfolding refresh_identity
refresh_identity-restore evs p had w engine mode r e h =
    let q = refresh_identity had r in
    let k = subst (λ o. queried had o ≡ none) (sym h) (run-query_current evs p had e) in
    (
      no_identity-restore w q k,
      no_identity-remember_engine w engine q k,
      no_identity-remember_mode w engine mode q k,
    )
