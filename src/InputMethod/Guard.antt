-- ===== src/InputMethod/Guard.antt =====
-- A commit of the engine ends the candidate session (`on_commit_callback`).
use mathlib.Core.List.{append_assoc}
use typiod_wayland.Prelude.{
  ℕ, ◌≡◌, refl, ap, ◌∙◌, true, false, not, ◌||◌, List, [], ◌∷◌, ◌++◌, ◌==◌, if-true, if-false,
  arith,
}
use typiod_wayland.Text.Bytes.{is_empty}
use typiod_wayland.Keyboard.State.{
  Frontend, call, set_preedit, commit_string, im_commit, notify_keyboard_commit,
}
use typiod_wayland.Keyboard.Lifecycle.{clear_preedit, wl_commit}
use typiod_wayland.Keyboard.Selection.{SelectionKeys, SelectionFlags, should_consume}
use typiod_wayland.Panel.Scheduler.{cancel}
use typiod_wayland.Panel.Coordinator.{owner_candidate}
use typiod_wayland.Panel.Coordinator.Frame.{hide-frontend}
use typiod_wayland.InputMethod.{
  InputMethod, ImWorld, frontend_of, on_commit, cancel_ui_tracking, wl_commit_string,
}
use typiod_wayland.InputMethod.Snapshot.{cleared}

-- The requests of a commit, where the input method and the session are there after a `done`.
commit_requests :
    (text : List ℕ) (f : Frontend)
    → f.input_method ≡ true
    → f.session ≡ true
    → (f.im_serial == 0) ≡ false
    → (call notify_keyboard_commit (wl_commit (wl_commit_string text (clear_preedit f)))).out
      ≡ f.out
        ++ set_preedit ∷ commit_string text ∷ im_commit f.im_serial ∷ notify_keyboard_commit ∷ []
unfolding wl_commit wl_commit_string clear_preedit
commit_requests text f m s n =
    let f1 = call set_preedit f in
    let f2 = call (commit_string text) f1 in
    let f3 = call (im_commit f.im_serial) f2 in
    let guard : (not f.input_method || not f.session || (f.im_serial == 0)) ≡ false =
      ground (arith, m, s, n) in
    let e1 : clear_preedit f ≡ f1 = if-true _ _ f.input_method m in
    let e2 : wl_commit_string text f1 ≡ f2 = if-true _ _ f.input_method m in
    let e3 : wl_commit f2 ≡ f3 =
      if-false _ _ (not f.input_method || not f.session || (f.im_serial == 0)) guard in
    let after = λ (x : Frontend). (call notify_keyboard_commit x).out in
    ap (λ x. after (wl_commit (wl_commit_string text x))) e1
    ∙ ap (λ x. after (wl_commit x)) e2
    ∙ ap after e3
    ∙ simp (append_assoc)

-- A commit of a text, with the input method and the session there and a `done` received: the
-- compositor gets the empty preedit, the text and the commit, in this order, and then the registry
-- is told; no candidates are left to show or to navigate, no redraw is scheduled, and whatever the
-- key, the candidate guard leaves it alone.
pub on_commit-should_consume :
    (w : ImWorld) (text : List ℕ) (im : InputMethod) (keys : SelectionKeys) (flags : SelectionFlags)
    (keysym : ℕ)
    → is_empty text ≡ false
    → (frontend_of im).input_method ≡ true
    → (frontend_of im).session ≡ true
    → ((frontend_of im).im_serial == 0) ≡ false
    → let after = on_commit w text im in
      ((frontend_of after).out
        ≡ (frontend_of im).out
          ++ set_preedit
            ∷ commit_string text
            ∷ im_commit (frontend_of im).im_serial
            ∷ notify_keyboard_commit
            ∷ [])
      × (should_consume keys flags after.session.last_candidate_count
            after.session.last_host_managed_selection keysym
          ≡ false)
      × (after.session.candidate_snapshot ≡ cleared)
      × (after.schedule ≡ cancel)
unfolding on_commit cancel_ui_tracking should_consume
on_commit-should_consume w text im keys flags keysym full m s n = rw full (
  ap (λ x. (call notify_keyboard_commit (wl_commit (wl_commit_string text x))).out)
        (hide-frontend w.indicator_world.panel_world owner_candidate
          (record im.shown.panel { frontend = clear_preedit (frontend_of im) }))
      ∙ commit_requests text (frontend_of im) m s n,
  refl,
  refl,
  refl,
)
