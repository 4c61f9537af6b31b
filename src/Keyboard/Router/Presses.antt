-- ===== src/Keyboard/Router/Presses.antt =====
-- A press keeps the invariant of the router (src/wayland/keyboard/router.c).
use typiod_wayland.Prelude.{
  ℕ, ◌<◌, ◌≡◌, refl, sym, ◌∙◌, ap, Bool, true, false, not, ◌&&◌, inl, inr, none, some, length,
  if_both, Bool-cases, Option-cases, Option, bit_and, ◌==◌,
}
use typiod_wayland.Keyboard.State.{
  TrackState, idle, forwarded, basic_passthrough, app_shortcut, released_pending,
  suppressed_startup, engine_not_ready, voice_ptt, voice_ptt_unavail, Frontend, Keyboard,
  ArbiterEvent, call, voice_start, show_voice_status, request_ui_update,
}
use typiod_wayland.Keyboard.Tracker.{get_state, set_state}
use typiod_wayland.Keyboard.Selection.{
  HostSelKey, HostSelCategory, category_navigate, category_commit, category_commit_raw,
  category_index_pick, category_none,
}
use typiod_wayland.Keyboard.Router.{
  Host, Route, KeyDecision, ReservedAction, reserved_none, reserved_emergency_exit,
  reserved_voice_ptt, is_ready, holds_blocking,
}
use typiod_wayland.Keyboard.Router.Press.{
  process_press, press_fresh, press_unreserved, press_engine, press_app_shortcut, press_voice,
  handle_host_selection, availability, try_commit, ask, key_event, guard_consumes, act_on, select,
  commit_at, is_app_shortcut_reason, press_reserved, press_in, shortcut_decision, classified, claim,
}
use typiod_wayland.Keyboard.Router.Down.{
  is_down, is_down-call, IsSame, IsSame-refl, vk_forward_key-IsSent, release_grab-IsSame,
}
use typiod_wayland.Keyboard.Router.Steps.{
  IsBalanced, IsOk, same-IsOk, quiet-IsOk, track-IsOk, sent_track-IsOk, sent-IsOk, claim-IsSame,
  step-IsBalanced, owed-down, IsBalancedAt, IsStep-trans, same-IsStep,
}

module _ {Context : Type 0} (host : Host Context) (now : ℕ) where
  availability-frontend : (r : Route Context) → (availability host r).0.frontend ≡ r.frontend
  unfolding availability
  availability-frontend r = elim (Bool-cases host.instance_set) [
    | inl e ↦ elim (Option-cases host.registry) [
      | inl o ↦ rw (availability, e, o) refl
      | inr (a, o) ↦ rw (availability, e, o) refl
    ]
    | inr e ↦ rw (availability, e) refl
  ]

  press_app_shortcut-IsOk :
      (ev : ArbiterEvent) (r : Route Context)
      → ev.key < 512
      → length r.frontend.tracker.states ≡ 512
      → is_down ev.key r.frontend ≡ false
      → IsOk ev.key r.frontend (press_app_shortcut host now ev r).frontend
  unfolding press_app_shortcut
  press_app_shortcut-IsOk ev r h n d =
      if_both (λ (r' : Route Context). IsOk ev.key r.frontend r'.frontend)
        (ask host (key_event host true true ev) r).1 (λ e. track-IsOk ev.key idle r.frontend d)
        (λ e.
          sent_track-IsOk app_shortcut h n
            (vk_forward_key-IsSent now ev.time ev.key true r.frontend) refl)

  call_track-IsOk :
      (key : ℕ) (st : TrackState) (f g : Frontend)
      → is_down key f ≡ false
      → IsSame f g
      → IsOk key f (record g { tracker = set_state g.tracker key st })
  call_track-IsOk key st f g d s = same-IsOk s (track-IsOk key st g (s.down key ∙ d))

  press_voice-IsOk :
      (ev : ArbiterEvent) (r : Route Context)
      → is_down ev.key r.frontend ≡ false
      → IsOk ev.key r.frontend (press_voice host ev r).frontend
  unfolding press_voice
  press_voice-IsOk ev r d =
      let f = r.frontend in
      if_both (λ (r' : Route Context). IsOk ev.key f r'.frontend) host.voice_available
        (λ e.
          call_track-IsOk ev.key voice_ptt f (call voice_start f) d
            (record { states = refl; down = λ k. is_down-call k voice_start f }))
        (λ e.
          let g : Frontend = record f { tracker = set_state f.tracker ev.key voice_ptt_unavail } in
          let t = track-IsOk ev.key voice_ptt_unavail f d in
          let s : IsSame g (call show_voice_status g) = record {
            states = refl;
            down = λ k. is_down-call k show_voice_status g;
          } in
          record {
            step = IsStep-trans t.step (same-IsStep ev.key s);
            owed = λ h. t.owed (sym (s.down ev.key) ∙ h);
          })

  commit_at-frontend :
      (o : Option ℕ) (r : Route Context) → (commit_at host o r).0.frontend ≡ r.frontend
  commit_at-frontend none r = refl
  commit_at-frontend (some i) r = refl

  try_commit-frontend :
      (sel : HostSelKey) (r : Route Context) → (try_commit host sel r).0.frontend ≡ r.frontend
  unfolding try_commit
  try_commit-frontend sel r =
      if_both (λ (x : Route Context × Bool). x.0.frontend ≡ r.frontend) (not r.frontend.ctx)
        (λ e. refl) (λ e. commit_at-frontend _ r)

  select-IsSame : (o : Option ℕ) (r : Route Context) → IsSame r.frontend (select host o r).frontend
  select-IsSame none r = IsSame-refl r.frontend
  select-IsSame (some i) r = record {
    states = refl;
    down = λ k. is_down-call k request_ui_update r.frontend;
  }

  act_on-IsSame :
      (category : HostSelCategory) (sel : HostSelKey) (r : Route Context)
      → IsSame r.frontend (act_on host category sel r).0.frontend
  act_on-IsSame category_navigate sel r = select-IsSame _ r
  act_on-IsSame category_commit sel r = rw (try_commit-frontend sel r) (IsSame-refl r.frontend)
  act_on-IsSame category_index_pick sel r = rw (try_commit-frontend sel r) (IsSame-refl r.frontend)
  act_on-IsSame category_commit_raw sel r = IsSame-refl r.frontend
  act_on-IsSame category_none sel r = IsSame-refl r.frontend

  press_engine-IsOk :
      (ev : ArbiterEvent) (r : Route Context)
      → ev.key < 512
      → length r.frontend.tracker.states ≡ 512
      → is_down ev.key r.frontend ≡ false
      → IsOk ev.key r.frontend (press_engine host now ev r).frontend
  unfolding press_engine handle_host_selection
  press_engine-IsOk ev r h n d =
      let asked = ask host (key_event host true true ev) r in
      let P = λ (r' : Route Context). IsOk ev.key r.frontend r'.frontend in
      if_both P (not asked.1 && guard_consumes host asked.0.session ev.keysym)
        (λ e. quiet-IsOk ev.key d (act_on-IsSame _ _ asked.0))
        (λ e.
          if_both P (not asked.1)
            (λ e'.
              sent_track-IsOk forwarded h n
                (vk_forward_key-IsSent now ev.time ev.key true r.frontend) refl)
            (λ e'. quiet-IsOk ev.key d (IsSame-refl r.frontend)))

  subst-IsOk : {key : ℕ} {f f' g : Frontend} → f ≡ f' → IsOk key f' g → IsOk key f g
  subst-IsOk e k = rw e k

  press_unreserved-IsOk :
      (decision : KeyDecision) (ev : ArbiterEvent) (r : Route Context)
      → ev.key < 512
      → length r.frontend.tracker.states ≡ 512
      → is_down ev.key r.frontend ≡ false
      → IsOk ev.key r.frontend (press_unreserved host now decision ev r).frontend
  unfolding press_unreserved
  press_unreserved-IsOk decision ev r h n d =
      let available = availability host r in
      let e : r.frontend ≡ available.0.frontend = sym (availability-frontend r) in
      let n1 : length available.0.frontend.tracker.states ≡ 512 = rw (← e) n in
      let d1 : is_down ev.key available.0.frontend ≡ false = rw (← e) d in
      let P = λ (r' : Route Context). IsOk ev.key r.frontend r'.frontend in
      if_both P (not (is_ready available.1))
        (λ u. subst-IsOk e (track-IsOk ev.key engine_not_ready available.0.frontend d1))
        (λ u.
          if_both P (is_app_shortcut_reason host decision.reason)
            (λ v. subst-IsOk e (press_app_shortcut-IsOk ev available.0 h n1 d1))
            (λ v. subst-IsOk e (press_engine-IsOk ev available.0 h n1 d1)))

  press_reserved-IsOk :
      (reserved : ReservedAction) (decision : KeyDecision) (ev : ArbiterEvent) (r : Route Context)
      → ev.key < 512
      → length r.frontend.tracker.states ≡ 512
      → is_down ev.key r.frontend ≡ false
      → IsOk ev.key r.frontend (press_reserved host reserved now decision ev r).frontend
  press_reserved-IsOk reserved_none decision ev r h n d = press_unreserved-IsOk decision ev r h n d
  press_reserved-IsOk reserved_emergency_exit decision ev r h n d =
      let s = release_grab-IsSame r.frontend in
      quiet-IsOk ev.key d (record { states = s.states; down = s.down })
  press_reserved-IsOk reserved_voice_ptt decision ev r h n d =
      let ptt = r.shortcuts.voice_ptt in
      if_both (λ (r' : Route Context). IsOk ev.key r.frontend r'.frontend)
        (host.have_voice
          && (ev.keysym == ptt.keysym)
          && (bit_and ev.modifiers ptt.modifiers == ptt.modifiers))
        (λ e. press_voice-IsOk ev r d) (λ e. press_unreserved-IsOk decision ev r h n d)

  press_fresh-IsOk :
      (ev : ArbiterEvent) (r : Route Context)
      → ev.key < 512
      → length r.frontend.tracker.states ≡ 512
      → is_down ev.key r.frontend ≡ false
      → IsOk ev.key r.frontend (press_fresh host now ev r).frontend
  unfolding press_fresh
  press_fresh-IsOk ev r h n d =
      let s = claim-IsSame ev.key r.frontend in
      let (decision, reserved) = shortcut_decision host r.shortcuts ev.keysym ev.modifiers in
      same-IsOk s (
        press_reserved-IsOk reserved decision ev (classified host decision (claim host ev.key r)) h
          (ap length s.states ∙ n) (s.down ev.key ∙ d))

  press_in-IsOk :
      (st : TrackState) (k : Keyboard) (ev : ArbiterEvent) (r : Route Context)
      → get_state r.frontend.tracker ev.key ≡ st
      → ev.key < 512
      → IsBalancedAt ev.key r.frontend
      → IsOk ev.key r.frontend (press_in host st now k ev r).frontend
  press_in-IsOk released_pending k ev r e h b =
      quiet-IsOk ev.key (owed-down ev.key r.frontend b.owed (rw e refl)) (IsSame-refl r.frontend)
  press_in-IsOk suppressed_startup k ev r e h b =
      quiet-IsOk ev.key (owed-down ev.key r.frontend b.owed (rw e refl)) (IsSame-refl r.frontend)
  press_in-IsOk app_shortcut k ev r e h b =
      if_both (λ (r' : Route Context). IsOk ev.key r.frontend r'.frontend)
        (holds_blocking host k.physical_modifiers)
        (λ u. sent-IsOk (vk_forward_key-IsSent now ev.time ev.key true r.frontend) (rw e refl))
        (λ u. record { step = same-IsStep ev.key (IsSame-refl r.frontend); owed = b.owed })
  press_in-IsOk forwarded k ev r e h b =
      sent-IsOk (vk_forward_key-IsSent now ev.time ev.key true r.frontend) (rw e refl)
  press_in-IsOk idle k ev r e h b =
      press_fresh-IsOk ev r h b.sized (owed-down ev.key r.frontend b.owed (rw e refl))
  press_in-IsOk basic_passthrough k ev r e h b =
      press_fresh-IsOk ev r h b.sized (owed-down ev.key r.frontend b.owed (rw e refl))
  press_in-IsOk engine_not_ready k ev r e h b =
      press_fresh-IsOk ev r h b.sized (owed-down ev.key r.frontend b.owed (rw e refl))
  press_in-IsOk voice_ptt k ev r e h b =
      press_fresh-IsOk ev r h b.sized (owed-down ev.key r.frontend b.owed (rw e refl))
  press_in-IsOk voice_ptt_unavail k ev r e h b =
      press_fresh-IsOk ev r h b.sized (owed-down ev.key r.frontend b.owed (rw e refl))

  pub process_press-IsOk :
      (k : Keyboard) (ev : ArbiterEvent) (r : Route Context)
      → ev.key < 512
      → IsBalancedAt ev.key r.frontend
      → IsOk ev.key r.frontend (process_press host now k ev r).frontend
  unfolding process_press
  process_press-IsOk k ev r h b =
      press_in-IsOk (get_state r.frontend.tracker ev.key) k ev r refl h b

  -- Whatever the engine, the host and the virtual keyboard do, a press of a tracked key keeps the
  -- invariant: every key that the application sees pressed is in a state that owes it the release.
  pub process_press-IsBalanced :
      (k : Keyboard) (ev : ArbiterEvent) (r : Route Context)
      → ev.key < 512
      → IsBalanced r.frontend
      → IsBalanced (process_press host now k ev r).frontend
  process_press-IsBalanced k ev r h b =
      let ok = process_press-IsOk k ev r h (record { sized = b.sized; owed = b.owed ev.key }) in
      step-IsBalanced ok.step b ok.owed
