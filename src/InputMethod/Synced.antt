-- ===== src/InputMethod/Synced.antt =====
-- What the application shows of the preedit, and what the session remembers of it.
pub mod Runs
use mathlib.Core.List.{append_assoc}
use mathlib.Core.Path.{subst}
use typiod_wayland.Prelude.{
  ℕ, ◌+◌, ◌≡◌, refl, sym, ap, ap₂, ◌∙◌, Bool, true, false, not, ◌&&◌, ◌||◌, List, [], ◌∷◌, ◌++◌,
  Option, none, some, u32, ◌==◌, ==_iff, if◌then◌else◌, if_both, if-true, Bool-cases, Option-cases,
  inl, inr, length, ltb, arith, ◌<◌,
}
use mathlib.Core.Bool.{false≢true}
use typiod_wayland.Text.Bytes.{same_text, same_text_eq, is_empty, text_or_empty}
use typiod_wayland.Text.Preedit
use typiod_wayland.Keyboard.State.{
  Frontend, Call, call, im_commit, set_preedit, set_preedit_string, commit_string,
  delete_surrounding, set_surrounding, notify_keyboard_commit,
}
use typiod_wayland.Keyboard.Lifecycle.{clear_preedit, wl_commit}
use typiod_wayland.Panel.Coordinator.{PanelFrontend, owner_candidate, hide}
use typiod_wayland.Panel.Coordinator.Frame.{hide-frontend}
use typiod_wayland.InputMethod.{
  InputMethod, ImWorld, Pending, TextSession, frontend_of, on_session, on_pending, with_session,
  im_handle_deactivate, im_handle_surrounding_text, im_handle_text_change_cause,
  im_handle_content_type, im_handle_done, im_handle_unavailable, on_commit, on_delete_surrounding,
  on_composition, flush_scheduled_ui_update, request_ui_update, cancel_ui_tracking,
  session_apply_pending, tell_surrounding, wl_commit_string, wl_delete_surrounding, wl_set_preedit,
  send_preedit, preedit_changed, same_cursor, kept_text, sync_preedit, refresh_panel,
}
use typiod_wayland.InputMethod.Seen.{
  seen, shows, Silent, Silent-trans, eq-Silent, call-Silent, Holds, Silent-Holds, commit-Holds,
  commit_string-Silent, delete-Silent, tell-Silent, send_preedit-Holds,
}
use typiod_wayland.InputMethod.Commits.{refresh_panel-frontend}

-- What the session remembers to have sent.
abbrev pub tracked : TextSession → List ℕ × Option ℕ
tracked s = seen (text_or_empty s.last_preedit_text) s.last_preedit_cursor

-- Commits are sent, and the application was told and shows what the session remembers.
abbrev pub Synced : List ℕ × Option ℕ → InputMethod → Type 0
Synced app im = Holds app (tracked im.session) (tracked im.session) (frontend_of im)

same_cursor_eq : (a b : Option ℕ) → same_cursor a b ≡ true → a ≡ b
same_cursor_eq none none h = refl
same_cursor_eq none (some b) h = absurd (false≢true h)
same_cursor_eq (some a) none h = absurd (false≢true h)
same_cursor_eq (some a) (some b) h = ap some ((==_iff a b).0 h)

not_or : (a b : Bool) → (not a || not b) ≡ false → (a ≡ true) × (b ≡ true)
not_or true true h = (refl, refl)
not_or true false h = absurd (false≢true (sym h))
not_or false b h = absurd (false≢true (sym h))

-- A preedit that need not be sent is the one that was sent.
unchanged_seen :
    (last : Option (List ℕ)) (cursor : Option ℕ) (text : List ℕ) (next : Option ℕ)
    → preedit_changed last cursor text next ≡ false
    → seen (text_or_empty last) cursor ≡ seen text next
unfolding preedit_changed
unchanged_seen last cursor text next h =
    let (c, t) = not_or (same_cursor cursor next) (same_text (text_or_empty last) text) h in
    ap₂ seen (same_text_eq (text_or_empty last) text t) (same_cursor_eq cursor next c)

abbrev pub AllCopied : ImWorld → Type 0
AllCopied w = (text : List ℕ) → w.copied text ≡ true

kept_text_eq : (w : ImWorld) (o : Option (List ℕ)) → AllCopied w → kept_text w o ≡ o
kept_text_eq w none all = refl
kept_text_eq w (some text) all = if-true _ _ (w.copied text) (all text)

module _ (app : List ℕ × Option ℕ) where
  -- What is told and shown is another name of what is remembered.
  pub remembered-Holds :
      {told t : List ℕ × Option ℕ} {f : Frontend}
      → told ≡ t
      → Holds app told told f
      → Holds app t t f
  remembered-Holds {f = f} e h = subst (λ t. Holds app t t f) e h

  commit-Synced :
      (w : ImWorld) (text : List ℕ) (im : InputMethod)
      → Synced app im
      → Synced app (on_commit w text im)
  unfolding on_commit cancel_ui_tracking
  commit-Synced w text im h =
      let f = clear_preedit (frontend_of im) in
      let p = record im.shown.panel { frontend = f } in
      let q = (hide w.indicator_world.panel_world owner_candidate p).frontend in
      let g = wl_commit_string text q in
      let hidden = eq-Silent app (hide-frontend w.indicator_world.panel_world owner_candidate p) in
      let cleared = send_preedit-Holds app none none (frontend_of im) h in
      let told =
        Silent-Holds app (Silent-trans app hidden (commit_string-Silent app text q)) cleared in
      if_both (Synced app) (is_empty text) (λ _. h)
        (λ _.
          Silent-Holds app (call-Silent app notify_keyboard_commit (wl_commit g) refl)
            (commit-Holds app g told))

  delete-Synced :
      (b a : ℕ) (im : InputMethod) → Synced app im → Synced app (on_delete_surrounding b a im)
  unfolding on_delete_surrounding
  delete-Synced b a im h =
      let f = frontend_of im in
      if_both (Synced app) (b == 0 && a == 0) (λ _. h)
        (λ _.
          commit-Holds app (wl_delete_surrounding b a f)
            (Silent-Holds app (delete-Silent app b a f) h))

  -- After the preedit was synchronised the application shows it, whether it was sent or not.
  sync-shows :
      (w : ImWorld) (plain : Option (List ℕ)) (cursor : Option ℕ) (im : InputMethod)
      → AllCopied w
      → Synced app im
      → Synced app (sync_preedit w plain cursor im)
        × (tracked (sync_preedit w plain cursor im).session ≡ seen (text_or_empty plain) cursor)
  unfolding sync_preedit
  sync-shows w plain cursor im all h =
      let f = frontend_of im in
      let s = im.session in
      let k : seen (text_or_empty (kept_text w plain)) cursor ≡ seen (text_or_empty plain) cursor =
        ap (λ o. seen (text_or_empty o) cursor) (kept_text_eq w plain all) in
      let g = λ (s1 : TextSession). record s1 {
        last_preedit_text = kept_text w plain;
        last_preedit_cursor = cursor;
      } in
      (
        if_both (λ (x : InputMethod). Synced app (on_session g x))
            (preedit_changed s.last_preedit_text s.last_preedit_cursor (text_or_empty plain) cursor)
            (λ _. remembered-Holds (sym k) (
              commit-Holds app (send_preedit plain cursor f)
                (send_preedit-Holds app plain cursor f h)))
            (λ u.
              remembered-Holds
                (unchanged_seen s.last_preedit_text s.last_preedit_cursor (text_or_empty plain)
                    cursor u
                  ∙ sym k)
                h),
        k,
      )

  refresh-Synced :
      (w : ImWorld) (im : InputMethod) → Synced app im → Synced app (refresh_panel w im)
  unfolding refresh_panel
  refresh-Synced w im h = Silent-Holds app (eq-Silent app (refresh_panel-frontend w im)) h

  flush-Synced :
      (w : ImWorld) (p : Option Preedit.Preedit) (im : InputMethod)
      → AllCopied w
      → Synced app im
      → Synced app (flush_scheduled_ui_update w p im)
  unfolding flush_scheduled_ui_update
  flush-Synced w p im all h =
      let (plain, cursor) = Preedit.build_plain_preedit w.resized p in
      if_both (Synced app) ((frontend_of im).session && (frontend_of im).ctx)
        (λ _. (sync-shows w plain cursor (refresh_panel w im) all (refresh-Synced w im h)).0)
        (λ _. h)

  done-Synced :
      (im : InputMethod)
      → (frontend_of im).im_serial + 1 < 4294967296
      → Synced app im
      → Synced app (im_handle_done im)
  unfolding im_handle_done session_apply_pending
  done-Synced im small h =
      let n = (frontend_of im).im_serial in
      let f = record (frontend_of im) { im_serial = u32 (n + 1) } in
      let counted : Holds app (tracked im.session) (tracked im.session) f = record {
        method = h.method;
        session = h.session;
        serial = ground (arith, small);
        state = h.state;
      } in
      if_both (Synced app) (frontend_of im).session
        (λ _. Silent-Holds app (tell-Silent app im.session.pending.text f) counted) (λ _. counted)
