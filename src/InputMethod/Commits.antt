-- ===== src/InputMethod/Commits.antt =====
-- The serial of each commit (`typio_wl_commit` of src/wayland/input_method.c), over runs of the
-- compositor's events, the context's callbacks and the flushes.
use mathlib.Core.List.{append-nil, append_assoc}
use mathlib.Core.Path.{subst}
use typiod_wayland.Prelude.{
  ℕ, ◌+◌, ◌<◌, ◌≡◌, refl, sym, ap, ◌∙◌, not, ◌&&◌, ◌||◌, List, [], ◌∷◌, ◌++◌, Option, none, some,
  u32, ltb, ◌==◌, length, Option-cases, if_both, inl, inr, arith,
}
use typiod_wayland.Text.Bytes.{is_empty, text_or_empty}
use typiod_wayland.Text.Preedit
use typiod_wayland.Keyboard.State.{
  Frontend, Call, call, im_commit, set_preedit, set_preedit_string, commit_string,
  delete_surrounding, set_surrounding, notify_keyboard_commit,
}
use typiod_wayland.Keyboard.Lifecycle.{clear_preedit, wl_commit}
use typiod_wayland.Panel.Coordinator.{
  PanelFrontend, owner_indicator, owner_candidate, hide, show_candidates,
}
use typiod_wayland.Panel.Coordinator.Frame.{
  hide-frontend, mark_anchor_ready-frontend, show_candidates-frontend,
}
use typiod_wayland.Panel.Indicator.{IndicatorWorld, Shown, hide_indicator}
use typiod_wayland.InputMethod.{
  InputMethod, ImWorld, frontend_of, im_handle_activate, im_handle_done, on_commit,
  on_delete_surrounding, flush_scheduled_ui_update, TextState, session_reset, session_apply_pending,
  tell_surrounding, is_ok, cancel_ui_tracking, wl_commit_string, wl_delete_surrounding,
  wl_set_preedit, sync_preedit, refresh_panel, ensure_session, send_preedit, preedit_changed,
}

-- The serial that a call commits with.
abbrev serial_of : Call → Option ℕ
serial_of (im_commit n) = some n
serial_of c = none

abbrev add : Option ℕ → List ℕ → List ℕ
add none ns = ns
add (some n) ns = n ∷ ns

-- The serials of the commits among the calls.
abbrev pub commits : List Call → List ℕ
commits [] = []
commits (c ∷ cs) = add (serial_of c) (commits cs)

add-append : (o : Option ℕ) (ms ns : List ℕ) → add o (ms ++ ns) ≡ add o ms ++ ns
add-append none ms ns = refl
add-append (some n) ms ns = refl

commits-append : (cs ds : List Call) → commits (cs ++ ds) ≡ commits cs ++ commits ds
commits-append [] ds = refl
commits-append (c ∷ cs) ds =
    ap (add (serial_of c)) (commits-append cs ds)
    ∙ add-append (serial_of c) (commits cs) (commits ds)

-- Every serial is the given number, which is not 0.
abbrev pub AllAre : ℕ → List ℕ → Type 0
AllAre n [] = Unit {0}
AllAre n (m ∷ ms) = (m ≡ n) × (0 < n) × AllAre n ms

AllAre-append : (n : ℕ) (ms ns : List ℕ) → AllAre n ms → AllAre n ns → AllAre n (ms ++ ns)
AllAre-append n [] ns h k = k
AllAre-append n (m ∷ ms) ns h k = (h.0, h.1, AllAre-append n ms ns h.2 k)

-- The calls that were added commit with the serial `n` only.
abbrev pub AddsCommits : ℕ → List Call → List Call → Type 0
AddsCommits n before after =
    (added : List Call) × (after ≡ before ++ added) × AllAre n (commits added)

-- A step that keeps the serial and commits with no other.
pub record Stamps (f g : Frontend) : Type 0 where
  pub serial : g.im_serial ≡ f.im_serial
  pub adds : AddsCommits f.im_serial f.out g.out

pub same-Stamps : {f g : Frontend} → g.im_serial ≡ f.im_serial → g.out ≡ f.out → Stamps f g
same-Stamps {f} s o = record { serial = s; adds = ([], o ∙ sym (append-nil f.out), tt) }

pub Stamps-refl : (f : Frontend) → Stamps f f
Stamps-refl f = same-Stamps refl refl

Stamps-trans : {f g h : Frontend} → Stamps f g → Stamps g h → Stamps f h
Stamps-trans {f} {g} {h} a b =
    let (xs, ex, hx) = a.adds in
    let (ys, ey, hy) = b.adds in
    record {
      serial = b.serial ∙ a.serial;
      adds = (
        xs ++ ys,
        ey ∙ ap (λ l. l ++ ys) ex ∙ append_assoc f.out xs ys,
        subst (AllAre f.im_serial) (sym (commits-append xs ys)) (
            AllAre-append f.im_serial (commits xs) (commits ys) hx
              (subst (λ n. AllAre n (commits ys)) a.serial hy)),
      );
    }

eq-Stamps : {f g : Frontend} → g ≡ f → Stamps f g
eq-Stamps {f} e = subst (Stamps f) (sym e) (Stamps-refl f)

call-Stamps : (c : Call) (f : Frontend) → serial_of c ≡ none → Stamps f (call c f)
call-Stamps c f e = record {
  serial = refl;
  adds = (c ∷ [], refl, subst (λ o. AllAre f.im_serial (add o [])) (sym e) tt);
}

wl_commit-Stamps : (f : Frontend) → Stamps f (wl_commit f)
unfolding wl_commit
wl_commit-Stamps f =
    if_both (Stamps f) (not f.input_method || not f.session || (f.im_serial == 0))
      (λ _. Stamps-refl f)
      (λ e. record {
        serial = refl;
        adds = (im_commit f.im_serial ∷ [], refl, (refl, ground (arith, e), tt));
      })

abbrev pub S : InputMethod → InputMethod → Type 0
S a b = Stamps (frontend_of a) (frontend_of b)

clear_preedit-Stamps : (f : Frontend) → Stamps f (clear_preedit f)
unfolding clear_preedit
clear_preedit-Stamps f =
    if_both (Stamps f) f.input_method (λ _. call-Stamps set_preedit f refl) (λ _. Stamps-refl f)

hide_indicator-frontend :
    (w : IndicatorWorld) (s : Shown) → (hide_indicator w s).panel.frontend ≡ s.panel.frontend
unfolding hide_indicator
hide_indicator-frontend w s = hide-frontend w.panel_world owner_indicator s.panel

ensure-S : (w : ImWorld) (im : InputMethod) → S im (ensure_session w im)
ensure-S w im =
    if_both (S im) ((frontend_of im).session || not w.session_had)
      (λ _. Stamps-refl (frontend_of im)) (λ _. same-Stamps refl refl)

pub activate-S : (w : ImWorld) (im : InputMethod) → S im (im_handle_activate w im)
unfolding im_handle_activate session_reset cancel_ui_tracking
activate-S w im =
    let im1 = ensure_session w im in
    if_both (S im) (frontend_of im1).session
      (λ _.
        Stamps-trans (ensure-S w im)
          (eq-Stamps (hide_indicator-frontend w.indicator_world im1.shown)))
      (λ _. ensure-S w im)

commit_string-Stamps : (text : List ℕ) (f : Frontend) → Stamps f (wl_commit_string text f)
unfolding wl_commit_string
commit_string-Stamps text f =
    if_both (Stamps f) f.input_method (λ _. call-Stamps (commit_string text) f refl)
      (λ _. Stamps-refl f)

pub commit-S : (w : ImWorld) (text : List ℕ) (im : InputMethod) → S im (on_commit w text im)
unfolding on_commit cancel_ui_tracking
commit-S w text im =
    let f = frontend_of im in
    let p = record im.shown.panel { frontend = clear_preedit f } in
    let q = (hide w.indicator_world.panel_world owner_candidate p).frontend in
    let g = wl_commit_string text q in
    if_both (S im) (is_empty text) (λ _. Stamps-refl f)
      (λ _. Stamps-trans (clear_preedit-Stamps f) (
        Stamps-trans (eq-Stamps (hide-frontend w.indicator_world.panel_world owner_candidate p)) (
          Stamps-trans (commit_string-Stamps text q) (
            Stamps-trans (wl_commit-Stamps g)
              (call-Stamps notify_keyboard_commit (wl_commit g) refl)))))

delete-Stamps : (b a : ℕ) (f : Frontend) → Stamps f (wl_delete_surrounding b a f)
unfolding wl_delete_surrounding
delete-Stamps b a f =
    if_both (Stamps f) (not f.input_method || b == 0 && a == 0) (λ _. Stamps-refl f)
      (λ _. call-Stamps (delete_surrounding b a) f refl)

pub delete-S : (b a : ℕ) (im : InputMethod) → S im (on_delete_surrounding b a im)
unfolding on_delete_surrounding
delete-S b a im =
    let f = frontend_of im in
    if_both (S im) (b == 0 && a == 0) (λ _. Stamps-refl f)
      (λ _. Stamps-trans (delete-Stamps b a f) (wl_commit-Stamps (wl_delete_surrounding b a f)))

pub refresh_panel-frontend :
    (w : ImWorld) (im : InputMethod) → frontend_of (refresh_panel w im) ≡ frontend_of im
unfolding refresh_panel
refresh_panel-frontend w im =
    let count = length im.session.candidate_snapshot.candidates in
    let before = record im.shown.panel { candidate_count = count } in
    let r = show_candidates w.indicator_world.panel_world before in
    let e = show_candidates-frontend w.indicator_world.panel_world before in
    if_both (λ (q : PanelFrontend). q.frontend ≡ frontend_of im) (is_ok r.1 && ltb 0 count)
      (λ _. mark_anchor_ready-frontend r.0 ∙ e) (λ _. e)

send_preedit-Stamps :
    (plain : Option (List ℕ)) (cursor : Option ℕ) (f : Frontend)
    → Stamps f (send_preedit plain cursor f)
unfolding wl_set_preedit
send_preedit-Stamps none cursor f = clear_preedit-Stamps f
send_preedit-Stamps (some text) cursor f =
    if_both (Stamps f) f.input_method (λ _. call-Stamps (set_preedit_string text cursor) f refl)
      (λ _. Stamps-refl f)

sync-S :
    (w : ImWorld) (plain : Option (List ℕ)) (cursor : Option ℕ) (im : InputMethod)
    → S im (sync_preedit w plain cursor im)
unfolding sync_preedit
sync-S w plain cursor im =
    let f = frontend_of im in
    let s = im.session in
    if_both (S im)
      (preedit_changed s.last_preedit_text s.last_preedit_cursor (text_or_empty plain) cursor)
      (λ _.
        Stamps-trans (send_preedit-Stamps plain cursor f)
          (wl_commit-Stamps (send_preedit plain cursor f)))
      (λ _. Stamps-refl f)

pub flush-S :
    (w : ImWorld) (p : Option Preedit.Preedit) (im : InputMethod)
    → S im (flush_scheduled_ui_update w p im)
unfolding flush_scheduled_ui_update
flush-S w p im =
    let (plain, cursor) = Preedit.build_plain_preedit w.resized p in
    if_both (S im) ((frontend_of im).session && (frontend_of im).ctx)
      (λ _.
        Stamps-trans (eq-Stamps (refresh_panel-frontend w im))
          (sync-S w plain cursor (refresh_panel w im)))
      (λ _. Stamps-refl (frontend_of im))

-- The frontend after `done` has counted it.
abbrev pub counted : Frontend → Frontend
counted f = record f { im_serial = u32 (f.im_serial + 1) }

tell-Stamps : (t : TextState) (f : Frontend) → Stamps f (tell_surrounding t f)
tell-Stamps t f = elim (Option-cases t.surrounding_text) [
  | inl e ↦ rw e (Stamps-refl f)
  | inr (text, e) ↦ rw e (
      if_both (Stamps f) f.ctx (λ _. call-Stamps (set_surrounding text t.cursor t.anchor) f refl)
        (λ _. Stamps-refl f))
]

pub done-Stamps :
    (im : InputMethod) → Stamps (counted (frontend_of im)) (frontend_of (im_handle_done im))
unfolding im_handle_done session_apply_pending
done-Stamps im =
    if_both (λ (x : InputMethod). Stamps (counted (frontend_of im)) (frontend_of x))
      (frontend_of im).session (λ _. tell-Stamps im.session.pending.text (counted (frontend_of im)))
      (λ _. Stamps-refl (counted (frontend_of im)))
