-- ===== src/Panel/Coordinator/Deferred.antt =====
-- A status that waits for its anchor (src/wayland/panel_coordinator.c).
use typiod_wayland.Prelude.{
  ℕ, zero, suc, ◌≡◌, refl, sym, ◌∙◌, ap, Bool, true, false, not, ◌||◌, List, [], ◌∷◌, ◌==◌, if_both,
  take, Bool-cases, inl, inr, arith,
}
use mathlib.Core.Path.{subst}
use typiod_wayland.Text.Bytes.{is_empty}
use typiod_wayland.Panel.Coordinator.{
  UiOwner, same_owner, PanelFrontend, PanelWorld, anchor_ready, mark_anchor_ready, cancel_pending,
  maybe_probe_position_anchor, has_focused_context, label_of, queue_positioned_ui, owns_status,
  show_now, show_status, flush_pending,
}

take-take : {A : Type 0} (n : ℕ) (xs : List A) → take n (take n xs) ≡ take n xs
take-take zero xs = refl
take-take (suc n) [] = refl
take-take (suc n) (x ∷ xs) = ap (λ t. x ∷ t) (take-take n xs)

-- What waits: the status with its owner, nothing drawn, and the same generations.
record IsQueued (owner : UiOwner) (label : List ℕ) (p q : PanelFrontend) : Type 0 where
  drawn : q.drawn ≡ p.drawn
  ui : q.ui_owner ≡ p.ui_owner
  panel : q.panel ≡ p.panel
  pending : q.coord.positioned_ui_pending ≡ true
  owned : q.coord.positioned_ui_pending_owner ≡ owner
  labelled : q.coord.positioned_ui_pending_label ≡ label
  generation : q.coord.position_anchor_generation ≡ p.coord.position_anchor_generation

module _ (owner : UiOwner) (label : List ℕ) (p : PanelFrontend) where
  probe-IsQueued :
      (w : PanelWorld) (q : PanelFrontend)
      → IsQueued owner label p q
      → IsQueued owner label p (maybe_probe_position_anchor w q)
  unfolding maybe_probe_position_anchor
  probe-IsQueued w q k =
      let g = q.coord.position_anchor_generation in
      if_both (IsQueued owner label p)
        (not q.frontend.input_method
          || not q.frontend.session
          || not w.anchor_probe
          || (g == 0)
          || (q.coord.position_anchor_probe_generation == g))
        (λ e. k)
        (λ e. record {
          drawn = k.drawn;
          ui = k.ui;
          panel = k.panel;
          pending = k.pending;
          owned = k.owned;
          labelled = k.labelled;
          generation = k.generation;
        })

  mark-IsQueued :
      (q : PanelFrontend) → IsQueued owner label p q → IsQueued owner label p (mark_anchor_ready q)
  unfolding mark_anchor_ready
  mark-IsQueued q k =
      if_both (IsQueued owner label p) ((q.coord.position_anchor_generation == 0) || anchor_ready q)
        (λ e. k)
        (λ e. record {
          drawn = k.drawn;
          ui = k.ui;
          panel = k.panel;
          pending = k.pending;
          owned = k.owned;
          labelled = k.labelled;
          generation = k.generation;
        })

mark-ready :
    (q : PanelFrontend)
    → (q.coord.position_anchor_generation == 0) ≡ false
    → anchor_ready (mark_anchor_ready q) ≡ true
unfolding mark_anchor_ready anchor_ready
mark-ready q h =
    if_both (λ q'. anchor_ready q' ≡ true)
      ((q.coord.position_anchor_generation == 0) || anchor_ready q) (λ e. ground (arith, e, h))
      (λ e. ground (arith, h))

-- What a status draws depends on what was drawn and on who owns the panel.
show_now-drawn :
    (w : PanelWorld) (owner : UiOwner) (text : List ℕ) (p q : PanelFrontend)
    → q.drawn ≡ p.drawn
    → q.ui_owner ≡ p.ui_owner
    → ((show_now w owner text q).0.drawn ≡ (show_now w owner text p).0.drawn)
      × ((show_now w owner text q).0.ui_owner ≡ (show_now w owner text p).0.ui_owner)
      × ((show_now w owner text q).0.coord.positioned_ui_pending ≡ false)
unfolding show_now cancel_pending
show_now-drawn w owner text p q d u = elim (Bool-cases (same_owner p.ui_owner owner)) [
  | inl o ↦ elim (Bool-cases (w.shown text)) [
    | inl e ↦ rw (show_now, d, u, o, e) (refl, refl, refl)
    | inr e ↦ rw (show_now, d, u, o, e) (refl, refl, refl)
  ]
  | inr o ↦ elim (Bool-cases (w.shown text)) [
    | inl e ↦ rw (show_now, d, u, o, e) (refl, refl, refl)
    | inr e ↦ rw (show_now, d, u, o, e) (refl, refl, refl)
  ]
]

-- The panel after the status has come: what was drawn, its owner, and nothing waits.
abbrev pub IsShown : PanelFrontend → PanelFrontend → Type 0
IsShown direct q =
    (q.drawn ≡ direct.drawn)
    × (q.ui_owner ≡ direct.ui_owner)
    × (q.coord.positioned_ui_pending ≡ false)

show_status-IsShown :
    (w : PanelWorld) (owner : UiOwner) (text : List ℕ) (p q : PanelFrontend)
    → q.panel ≡ true
    → is_empty text ≡ false
    → owns_status owner ≡ true
    → anchor_ready q ≡ true
    → q.drawn ≡ p.drawn
    → q.ui_owner ≡ p.ui_owner
    → IsShown (show_now w owner text p).0 (show_status w owner text q).0
unfolding show_status
show_status-IsShown w owner text p q panel full owned ready d u =
    if_both (λ (r : PanelFrontend × Bool). IsShown (show_now w owner text p).0 r.0)
      (not q.panel || is_empty text || not (owns_status owner))
      (λ e. absurd (ground (arith, e, panel, full, owned)))
      λ e.
        if_both (λ (r : PanelFrontend × Bool). IsShown (show_now w owner text p).0 r.0)
          (not (anchor_ready q)) (λ n. absurd (ground (arith, n, ready)))
          λ n. show_now-drawn w owner text p q d u

cancel-ready : (q : PanelFrontend) → anchor_ready (cancel_pending q) ≡ anchor_ready q
unfolding cancel_pending anchor_ready
cancel-ready q = refl

flush-IsShown :
    (w : PanelWorld) (owner : UiOwner) (label : List ℕ) (p q : PanelFrontend)
    → IsQueued owner label p q
    → p.panel ≡ true
    → is_empty (label_of label) ≡ false
    → owns_status owner ≡ true
    → anchor_ready q ≡ true
    → IsShown (show_now w owner (label_of label) p).0 (flush_pending w q)
unfolding flush_pending cancel_pending
flush-IsShown w owner label p q k panel full owned ready =
    if_both (IsShown (show_now w owner (label_of label) p).0)
      (not q.coord.positioned_ui_pending || not (anchor_ready q))
      (λ e. absurd (ground (arith, e, k.pending, ready)))
      (λ e.
        let shown =
          show_status-IsShown w owner (label_of label) p (cancel_pending q) (k.panel ∙ panel) full
            owned (cancel-ready q ∙ ready) k.drawn k.ui in
        subst
          (λ (o : UiOwner).
            IsShown (show_now w owner (label_of label) p).0
              (show_status w o (label_of q.coord.positioned_ui_pending_label) (cancel_pending q)).0)
          (sym k.owned)
          (subst
            (λ (l : List ℕ).
              IsShown (show_now w owner (label_of label) p).0
                (show_status w owner (label_of l) (cancel_pending q)).0)
            (sym k.labelled) shown))

queue-IsQueued :
    (w : PanelWorld) (owner : UiOwner) (text : List ℕ) (p : PanelFrontend)
    → is_empty text ≡ false
    → has_focused_context w p ≡ true
    → IsQueued owner (label_of text) p (queue_positioned_ui w owner text p).0
unfolding queue_positioned_ui
queue-IsQueued w owner text p full focused =
    if_both (λ (r : PanelFrontend × Bool). IsQueued owner (label_of text) p r.0)
      (is_empty text || not (has_focused_context w p))
      (λ e. absurd (ground (arith, e, full, focused)))
      λ e. probe-IsQueued owner (label_of text) p w _ (record {
        drawn = refl;
        ui = refl;
        panel = refl;
        pending = refl;
        owned = refl;
        labelled = refl;
        generation = refl;
      })

-- A status for the indicator or the voice that finds a context focused and its anchor not ready is
-- not drawn; once the anchor is ready, the flush draws what showing its first 255 bytes at once
-- would have drawn, with the same owner of the panel, and nothing waits any more.
pub show_status-deferred :
    (w later : PanelWorld) (owner : UiOwner) (c : ℕ) (text : List ℕ) (p : PanelFrontend)
    → p.panel ≡ true
    → owns_status owner ≡ true
    → has_focused_context w p ≡ true
    → anchor_ready p ≡ false
    → (p.coord.position_anchor_generation == 0) ≡ false
    → let q = (show_status w owner (c ∷ text) p).0 in
      (q.drawn ≡ p.drawn)
      × IsShown
          (show_now later owner (label_of (c ∷ text)) p).0
          (flush_pending later (mark_anchor_ready q))
unfolding show_status
show_status-deferred w later owner c text p panel owned focused waits g =
    let P = λ (r : PanelFrontend × Bool).
      (r.0.drawn ≡ p.drawn)
      × IsShown (show_now later owner (label_of (c ∷ text)) p).0
          (flush_pending later (mark_anchor_ready r.0)) in
    if_both P (not p.panel || is_empty (c ∷ text) || not (owns_status owner))
      (λ e. absurd (ground (arith, e, panel, owned)))
      λ e.
        if_both P (not (anchor_ready p))
          (λ n.
            let label = label_of (c ∷ text) in
            let q = (queue_positioned_ui w owner (c ∷ text) p).0 in
            let k = queue-IsQueued w owner (c ∷ text) p refl focused in
            let m = mark-IsQueued owner label p q k in
            let ready = mark-ready q (ap (λ i. i == 0) k.generation ∙ g) in
            let shown =
              flush-IsShown later owner label p (mark_anchor_ready q) m panel refl owned ready in
            (k.drawn, rw (← take-take 255 (c ∷ text)) shown))
          (λ n. absurd (ground (arith, n, waits)))
