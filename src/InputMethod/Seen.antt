-- ===== src/InputMethod/Seen.antt =====
-- What the application shows of the preedit, by the requests that it was sent.
use mathlib.Core.Path.{subst}
use typiod_wayland.Prelude.{
  ℕ, ◌≡◌, refl, sym, ◌∙◌, true, not, ◌&&◌, ◌||◌, List, [], ◌∷◌, ◌++◌, Option, none, some, ◌==◌,
  if_both, Option-cases, inl, inr, ap, if-true, if-false, false, arith,
}
use typiod_wayland.Text.Bytes.{text_or_empty}
use typiod_wayland.Keyboard.State.{
  Frontend, Call, call, im_commit, set_preedit, set_preedit_string, commit_string,
  delete_surrounding, set_surrounding,
}
use typiod_wayland.Keyboard.Lifecycle.{clear_preedit, wl_commit}
use typiod_wayland.InputMethod.{
  TextState, tell_surrounding, wl_commit_string, wl_delete_surrounding, wl_set_preedit,
  send_preedit,
}

-- A preedit as the application shows it: an empty one has no cursor.
abbrev pub seen : List ℕ → Option ℕ → List ℕ × Option ℕ
seen [] cursor = ([], none)
seen (c ∷ cs) cursor = (c ∷ cs, cursor)

-- The preedit that the application was told last, and the one that it shows: the protocol applies
-- what was told at the next commit (protocols/input-method-unstable-v2.xml).
pub record View : Type 0 where
  pub told : List ℕ × Option ℕ
  pub shown : List ℕ × Option ℕ

abbrev pub after_call : Call → View → View
after_call set_preedit v = record v { told = ([], none) }
after_call (set_preedit_string text cursor) v = record v { told = seen text cursor }
after_call (im_commit serial) v = record v { shown = v.told }
after_call _ v = v

abbrev pub view : View → List Call → View
view v [] = v
view v (c ∷ cs) = view (after_call c v) cs

-- Where `app` was told and committed.
abbrev pub settled : List ℕ × Option ℕ → View
settled app = record { told = app; shown = app }

-- The preedit that the application shows after the requests, where it showed `app` at first.
abbrev pub shows : List ℕ × Option ℕ → List Call → List ℕ × Option ℕ
shows app cs = View.shown (view (settled app) cs)

pub view-append : (v : View) (cs ds : List Call) → view v (cs ++ ds) ≡ view (view v cs) ds
view-append v [] ds = refl
view-append v (c ∷ cs) ds = view-append (after_call c v) cs ds

-- A step that tells the application nothing of a preedit and commits nothing.
pub record Silent (app : List ℕ × Option ℕ) (f g : Frontend) : Type 0 where
  pub method : g.input_method ≡ f.input_method
  pub session : g.session ≡ f.session
  pub serial : g.im_serial ≡ f.im_serial
  pub kept : view (settled app) g.out ≡ view (settled app) f.out

-- Commits are sent, and the application was told one preedit and shows another.
pub record Holds (app told shown : List ℕ × Option ℕ) (f : Frontend) : Type 0 where
  pub method : f.input_method ≡ true
  pub session : f.session ≡ true
  pub serial : (f.im_serial == 0) ≡ false
  pub state : view (settled app) f.out ≡ record { told = told; shown = shown }

module _ (app : List ℕ × Option ℕ) where
  pub Silent-refl : (f : Frontend) → Silent app f f
  Silent-refl f = record { method = refl; session = refl; serial = refl; kept = refl }

  pub Silent-trans : {f g h : Frontend} → Silent app f g → Silent app g h → Silent app f h
  Silent-trans a b = record {
    method = b.method ∙ a.method;
    session = b.session ∙ a.session;
    serial = b.serial ∙ a.serial;
    kept = b.kept ∙ a.kept;
  }

  pub eq-Silent : {f g : Frontend} → g ≡ f → Silent app f g
  eq-Silent {f} e = subst (Silent app f) (sym e) (Silent-refl f)

  pub call-Silent :
      (c : Call) (f : Frontend)
      → after_call c (view (settled app) f.out) ≡ view (settled app) f.out
      → Silent app f (call c f)
  call-Silent c f e = record {
    method = refl;
    session = refl;
    serial = refl;
    kept = view-append (settled app) f.out (c ∷ []) ∙ e;
  }

  pub commit_string-Silent : (text : List ℕ) (f : Frontend) → Silent app f (wl_commit_string text f)
  unfolding wl_commit_string
  commit_string-Silent text f =
      if_both (Silent app f) f.input_method (λ _. call-Silent (commit_string text) f refl)
        (λ _. Silent-refl f)

  pub delete-Silent : (b a : ℕ) (f : Frontend) → Silent app f (wl_delete_surrounding b a f)
  unfolding wl_delete_surrounding
  delete-Silent b a f =
      if_both (Silent app f) (not f.input_method || b == 0 && a == 0) (λ _. Silent-refl f)
        (λ _. call-Silent (delete_surrounding b a) f refl)

  pub tell-Silent : (t : TextState) (f : Frontend) → Silent app f (tell_surrounding t f)
  tell-Silent t f = elim (Option-cases t.surrounding_text) [
    | inl e ↦ rw e (Silent-refl f)
    | inr (text, e) ↦ rw e (
        if_both (Silent app f) f.ctx
          (λ _. call-Silent (set_surrounding text t.cursor t.anchor) f refl) (λ _. Silent-refl f))
  ]

  pub Silent-Holds :
      {told shown : List ℕ × Option ℕ} {f g : Frontend}
      → Silent app f g
      → Holds app told shown f
      → Holds app told shown g
  Silent-Holds s h = record {
    method = s.method ∙ h.method;
    session = s.session ∙ h.session;
    serial = ap (λ n. n == 0) s.serial ∙ h.serial;
    state = s.kept ∙ h.state;
  }

  -- A call that is made where commits are sent.
  call-Holds :
      {told shown : List ℕ × Option ℕ} (c : Call) (f : Frontend)
      → Holds app told shown f
      → let v = after_call c (record { told = told; shown = shown }) in
        Holds app v.told v.shown (call c f)
  call-Holds c f h = record {
    method = h.method;
    session = h.session;
    serial = h.serial;
    state = view-append (settled app) f.out (c ∷ []) ∙ ap (after_call c) h.state;
  }

  pub commit-Holds :
      {told shown : List ℕ × Option ℕ} (f : Frontend)
      → Holds app told shown f
      → Holds app told told (wl_commit f)
  unfolding wl_commit
  commit-Holds {told} f h =
      let guard : (not f.input_method || not f.session || (f.im_serial == 0)) ≡ false =
        ground (arith, h.method, h.session, h.serial) in
      subst (Holds app told told) (sym (if-false _ _ _ guard))
        (call-Holds (im_commit f.im_serial) f h)

  -- The preedit is told.
  pub send_preedit-Holds :
      {told shown : List ℕ × Option ℕ} (plain : Option (List ℕ)) (cursor : Option ℕ) (f : Frontend)
      → Holds app told shown f
      → Holds app (seen (text_or_empty plain) cursor) shown (send_preedit plain cursor f)
  unfolding clear_preedit wl_set_preedit
  send_preedit-Holds {shown} none cursor f h =
      subst (Holds app ([], none) shown) (sym (if-true _ f f.input_method h.method))
        (call-Holds set_preedit f h)
  send_preedit-Holds {shown} (some text) cursor f h =
      subst (Holds app (seen text cursor) shown) (sym (if-true _ f f.input_method h.method))
        (call-Holds (set_preedit_string text cursor) f h)
