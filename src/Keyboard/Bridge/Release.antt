-- ===== src/Keyboard/Bridge/Release.antt =====
-- The release of forwarded keys at a lifecycle boundary (src/wayland/keyboard/bridge.c and
-- policy/tracker.c).
use typiod_wayland.Prelude.{
  ℕ, ◌+◌, ◌≡◌, refl, ap, true, false, not, ◌||◌, List, [], ◌∷◌, ◌++◌, u32, if◌then◌else◌, length,
  Bool-cases, inl, inr, arith, map,
}
use mathlib.Core.List.{append-nil}
use typiod_wayland.Keyboard.State.{
  TrackState, idle, forwarded, basic_passthrough, app_shortcut, released_pending,
  suppressed_startup, engine_not_ready, voice_ptt, voice_ptt_unavail, Frontend, vk_key,
  is_vk_absent, is_vk_broken,
}
use typiod_wayland.Keyboard.Tracker.{is_held_by_app, mark_released_pending}
use typiod_wayland.Keyboard.Bridge.{releases, vk_release_forwarded_keys}

-- The state of a key after the marking.
abbrev pub released : TrackState → TrackState
released st = if is_held_by_app st then released_pending else st

pub mark_released_pending_lem :
    (states : List TrackState) → (mark_released_pending states).0 ≡ map released states
unfolding mark_released_pending
mark_released_pending_lem [] = refl
mark_released_pending_lem (st ∷ states) = elim (Bool-cases (is_held_by_app st)) [
  | inl e ↦ rw e (ap (λ t. released_pending ∷ t) (mark_released_pending_lem states))
  | inr e ↦ rw e (ap (λ t. st ∷ t) (mark_released_pending_lem states))
]

releases-length :
    (time i : ℕ) (states : List TrackState)
    → length (releases time i states) ≡ (mark_released_pending states).1
unfolding releases mark_released_pending
releases-length time i [] = refl
releases-length time i (st ∷ states) =
    let rest = releases-length time (i + 1) states in
    elim (Bool-cases (is_held_by_app st)) [ inl e ↦ rw e (omega (arith, rest)) | inr e ↦ rw e rest ]

released_idle : (st : TrackState) → is_held_by_app (released st) ≡ false
released_idle idle = refl
released_idle forwarded = refl
released_idle basic_passthrough = refl
released_idle app_shortcut = refl
released_idle released_pending = refl
released_idle suppressed_startup = refl
released_idle engine_not_ready = refl
released_idle voice_ptt = refl
released_idle voice_ptt_unavail = refl

releases-released :
    (time i : ℕ) (states : List TrackState) → releases time i (map released states) ≡ []
unfolding releases
releases-released time i [] = refl
releases-released time i (st ∷ states) =
    rw (released_idle st) (releases-released time (i + 1) states)

-- The keys that the application holds, and the calls that release them.
abbrev pub held_keys : ℕ → List TrackState → List ℕ
held_keys i [] = []
held_keys i (st ∷ states) =
    if is_held_by_app st then i ∷ held_keys (i + 1) states else held_keys (i + 1) states

releases_lem :
    (time i : ℕ) (states : List TrackState)
    → releases time i states ≡ map (λ key. vk_key time key false) (held_keys i states)
unfolding releases
releases_lem time i [] = refl
releases_lem time i (st ∷ states) = elim (Bool-cases (is_held_by_app st)) [
  | inl e ↦ rw e (ap (λ t. vk_key time i false ∷ t) (releases_lem time (i + 1) states))
  | inr e ↦ rw e (releases_lem time (i + 1) states)
]

abbrev released_frontend : ℕ → Frontend → Frontend
released_frontend now f = record f {
  out = f.out ++ releases (u32 now) 0 f.tracker.states;
  tracker = record f.tracker { states = (mark_released_pending f.tracker.states).0 };
}

released_frontend-eq :
    (now : ℕ) (f : Frontend)
    → f.vk.vk ≡ true
    → is_vk_absent f.vk.state ≡ false
    → is_vk_broken f.vk.state ≡ false
    → vk_release_forwarded_keys now f ≡ released_frontend now f
unfolding vk_release_forwarded_keys
released_frontend-eq now f v a b =
    let c : (not f.vk.vk || is_vk_absent f.vk.state || is_vk_broken f.vk.state) ≡ false =
      ground (arith, v, a, b) in
    rw c refl

-- Where the virtual keyboard exists and is neither absent nor broken, each key that the
-- application holds is released exactly once, in the order of the keys, and no other; each of
-- those keys is pending its release, and no other key's state changes; and a second call, at any
-- time, changes nothing more and sends nothing.
pub release_forwarded_keys_lem :
    (now later : ℕ) (f : Frontend)
    → f.vk.vk ≡ true
    → is_vk_absent f.vk.state ≡ false
    → is_vk_broken f.vk.state ≡ false
    → let g = vk_release_forwarded_keys now f in
      (g.out ≡ f.out ++ map (λ key. vk_key (u32 now) key false) (held_keys 0 f.tracker.states))
      × (g.tracker.states ≡ map released f.tracker.states)
      × ((vk_release_forwarded_keys later g).out ≡ g.out)
release_forwarded_keys_lem now later f v a b =
    let r = released_frontend-eq now f v a b in
    let again = released_frontend-eq later (released_frontend now f) v a b in
    rw (r, again)
      (
        ap (λ t. f.out ++ t) (releases_lem (u32 now) 0 f.tracker.states),
        mark_released_pending_lem f.tracker.states,
        rw
            (
              mark_released_pending_lem f.tracker.states,
              releases-released (u32 later) 0 f.tracker.states,
              append-nil,
            )
            refl,
      )
