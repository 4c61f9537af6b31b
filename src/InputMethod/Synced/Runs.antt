-- ===== src/InputMethod/Synced/Runs.antt =====
-- What the application shows of the preedit, over runs of events and flushes.
use typiod_wayland.Prelude.{
  ℕ, ◌≡◌, ap, ◌∙◌, true, false, ◌&&◌, List, [], ◌∷◌, Option, none, some, if_both, if-true, length,
  ◌<◌, ◌+◌, refl, arith,
}
use typiod_wayland.Text.Bytes.{text_or_empty}
use typiod_wayland.Text.Preedit
use typiod_wayland.InputMethod.{
  InputMethod, ImWorld, Pending, frontend_of, on_pending, with_session, im_handle_deactivate,
  im_handle_surrounding_text, im_handle_text_change_cause, im_handle_content_type,
  im_handle_unavailable, on_composition, flush_scheduled_ui_update, request_ui_update, kept_text,
  refresh_panel,
}
use typiod_wayland.InputMethod.Events.{Event, step, run}
use typiod_wayland.InputMethod.Seen.{seen, shows, View, Holds}
use typiod_wayland.InputMethod.Runs.{step-Counts, count_done_le}
use typiod_wayland.InputMethod.Synced.{
  Synced, AllCopied, commit-Synced, delete-Synced, done-Synced, flush-Synced, refresh-Synced,
  sync-shows,
}

-- The events between two activations; texts are copied.
abbrev pub Continues : Event → Type 0
Continues (Event.activate w) = ⊥
Continues (Event.flush w p) = AllCopied w
Continues _ = Unit {0}

abbrev pub AllContinue : List Event → Type 0
AllContinue [] = Unit {0}
AllContinue (ev ∷ evs) = Continues ev × AllContinue evs

module _ (app : List ℕ × Option ℕ) where
  pending-Synced :
      (im : InputMethod) (g : Pending → Pending)
      → Synced app im
      → Synced app (with_session (on_pending g) im)
  pending-Synced im g h = if_both (Synced app) (frontend_of im).session (λ _. h) (λ _. h)

  step-Synced :
      (im : InputMethod) (ev : Event)
      → Continues ev
      → (frontend_of im).im_serial + 1 < 4294967296
      → Synced app im
      → Synced app (step im ev)
  unfolding im_handle_deactivate im_handle_surrounding_text im_handle_text_change_cause
      im_handle_content_type im_handle_unavailable on_composition request_ui_update
  step-Synced im (Event.activate w) c small h = absurd c
  step-Synced im Event.deactivate c small h =
      pending-Synced (record im { facts = record im.facts { im_deactivate_seen = true } })
        (λ p. record p { active = false }) h
  step-Synced im (Event.surrounding w text cursor anchor) c small h =
      pending-Synced im
        (λ p. record p {
          text = record p.text {
            surrounding_text = kept_text w text;
            cursor = cursor;
            anchor = anchor;
          };
        })
        h
  step-Synced im (Event.change_cause cause) c small h =
      pending-Synced im (λ p. record p { text_change_cause = cause }) h
  step-Synced im (Event.content_type hint purpose) c small h =
      pending-Synced im
        (λ p. record p { text = record p.text { content_hint = hint; content_purpose = purpose } })
        h
  step-Synced im Event.done c small h = done-Synced app im small h
  step-Synced im Event.unavailable c small h = record {
    method = h.method;
    session = h.session;
    serial = h.serial;
    state = h.state;
  }
  step-Synced im (Event.commit w text) c small h = commit-Synced app w text im h
  step-Synced im (Event.delete b a) c small h = delete-Synced app b a im h
  step-Synced im (Event.composition w none) c small h = h
  step-Synced im (Event.composition w (some x)) c small h = h
  step-Synced im (Event.flush w p) c small h = flush-Synced app w p im c h

  run-Synced :
      (im : InputMethod) (evs : List Event)
      → AllContinue evs
      → (frontend_of im).im_serial + length evs < 4294967296
      → Synced app im
      → Synced app (run im evs)
  run-Synced im [] c small h = h
  run-Synced im (ev ∷ evs) c small h =
      let n = (frontend_of im).im_serial in
      let next : n + 1 < 4294967296 = omega (arith, small) in
      let counted = (step-Counts n im ev refl next).0 in
      run-Synced (step im ev) evs c.1 (omega (arith, counted, count_done_le ev n, small))
        (step-Synced im ev c.0 next h)

-- Where the application shows what the session remembers and commits are sent, as after an
-- activation and its `done`: after any events but an activation, a flush of a session leaves the
-- application showing the preedit of the context, although an unchanged preedit is not sent again.
-- A preedit is shown once it is committed, and an empty one counts without its cursor; texts are
-- copied, and the serial does not wrap.
pub flush-shows :
    (app : List ℕ × Option ℕ) (im : InputMethod) (evs : List Event) (w : ImWorld)
    (preedit : Option Preedit.Preedit)
    → Synced app im
    → AllContinue evs
    → (frontend_of im).im_serial + length evs < 4294967296
    → AllCopied w
    → ((frontend_of (run im evs)).session && (frontend_of (run im evs)).ctx) ≡ true
    → let (plain, cursor) = Preedit.build_plain_preedit w.resized preedit in
      shows app (frontend_of (flush_scheduled_ui_update w preedit (run im evs))).out
      ≡ seen (text_or_empty plain) cursor
unfolding flush_scheduled_ui_update
flush-shows app im evs w preedit h c small all here =
    let (plain, cursor) = Preedit.build_plain_preedit w.resized preedit in
    let before = run im evs in
    let after =
      sync-shows app w plain cursor (refresh_panel w before) all
        (refresh-Synced app w before (run-Synced app im evs c small h)) in
    ap (λ (x : InputMethod). shows app (frontend_of x).out)
      (if-true _ _ ((frontend_of before).session && (frontend_of before).ctx) here)
    ∙ ap (λ (v : View). v.shown) (Holds.state after.0)
    ∙ after.1
