-- ===== src/Lib.antt =====
-- typiod-wayland, the Wayland input-method daemon of Typio: a model of its core and its theorems.
--
-- The daemon records facts from Wayland events, reduces them once per tick to a desired state,
-- observes its resources and applies the difference: src/engine/focus_controller.c is the pure
-- half of this pipeline and src/wayland/focus_effects.c the half with effects. The grab of the
-- keyboard (src/wayland/keyboard/keyboard.c) sends key events through the chord arbiter
-- (arbiter.c) to the router (router.c) and the engine; a held key is dispatched again by the
-- repeat timer (repeat.c); what the engine does not take goes back to the application through a
-- virtual keyboard (bridge.c), fenced by generations of the grab (policy/tracker.c). The input
-- method (src/wayland/input_method.c) collects what the compositor says of the text field until
-- its `done`, and brings the preedit, the texts and the candidates of the engine to the
-- application and the panel. Clients talk to the daemon over a Unix socket (src/ipc/uds_server.c)
-- in JSON (tip_json.c). The panel coordinator (src/wayland/panel_coordinator.c) decides when the
-- candidate panel, and its status, are drawn, its scheduler (panel_scheduler.c) paces the
-- attempts, the indicator (indicator.c) makes a status of the language, the engine and its mode,
-- and the panel draws from a glyph atlas (src/ui/panel/glyph_atlas.c, glyph_pack.c).
--
-- The files:
-- - Prelude: names of the libraries, Boolean tests, lists over the native numbers, C's words.
-- - Engine.Focus: `typio_wl_focus_reduce`, `typio_wl_focus_diff`, `typio_wl_focus_classify_done`
--   and the guard predicates, one function each, over records with the structs' fields; Edges,
--   Converge and Resume are about runs of ticks, what an effect set brings about, and a resume.
-- - Engine.Timing: src/engine/backoff.c, resume_model.h, startup.c and boundary.c, with the
--   wrap-around of their words.
-- - Text.Buffer, Text.Preedit, Text.Bytes: the growing buffer of src/ui/preedit.c and of
--   src/ipc/tip_json.c, the plain preedit text, and lists of byte codes.
-- - Keyboard.State: the structs of src/wayland/internal.h, as far as the pipeline uses them.
-- - Keyboard.Tracker: policy/tracker.c and tracker_access.h. Keyboard.Bridge: bridge.c.
--   Keyboard.Lifecycle: keyboard.c, the two stops of repeat.c and focus_effects.c; an operation
--   maps a frontend to a frontend, and Keyboard.Lifecycle.Runs has the runs.
--   Keyboard.Arbiter: arbiter.c and policy/chords.c. Keyboard.Modifiers: policy/modifiers.c and
--   repeat_guard.c. Keyboard.Selection: candidate_guard.c.
-- - Keyboard.Router: router.c; its children Press and Release hold the two halves, Steps, Presses
--   and Releases what each step does to the tracker and the calls, Runs the runs of events, and Stuck
--   a release that is withheld.
--   Keyboard.Dispatch: the key listener of keyboard.c and the timer of repeat.c, which compose the
--   guard, the arbiter and the router; its child Listeners has the other listeners of the grab.
-- - Ipc.Client, Ipc.Reader: the write path and the read path of one client of uds_server.c.
--   Ipc.Deframe is the specification of the read path: the frames of a byte stream. Ipc.Topics has
--   the subscriptions and the broadcast.
-- - Ipc.Json: tip_json.c, its readers in Ipc.Json and its writers in Ipc.Json.Builder.
-- - Panel.Coordinator, Panel.Scheduler: panel_coordinator.c and panel_scheduler.c.
--   Panel.Indicator: indicator.c; Label has its text, Cache the labels it keeps, Kept what waits.
-- - InputMethod: input_method.c and the plan and tracking of src/ui/state.c. Session is its state
--   and requests, Snapshot its copy of the candidates, Batch what a `done` applies, Events the events
--   of a run, Commits and Runs the serials of its commits, Seen and Synced what the application
--   shows of what was told and committed, Guard the end of a composition.
-- - EventLoop: what the rounds of src/wayland/event_loop.c do for the panel: the timeout of the
--   poll, the flush and its plan (src/ui/state.c), and the two ends of a round. Deadline is about the
--   flush, Starved about rounds whose polls time out. EventLoop.Pipeline is the tick of the focus
--   controller with the effects of src/wayland/focus_effects.c on the panel, the indicator and the
--   session: Silence, Blanks and Fresh are about the preedit that its steps leave shown, Ticks about a
--   whole tick, Leaving about one that ends the focus.
-- - Identity: src/wayland/foreign/identity.c, the toplevels and the identity of the focused one;
--   Newest and Recent have their runs, Memory the engine and the mode that are kept for an
--   application.
-- - Glyph.Pack: `glyph_packer_place`, and runs of it. Glyph.Atlas: the table of glyph_atlas.c over
--   it, the texture left to the GPU library.
-- - Watchdog: src/wayland/watchdog.c, the loop's reports and a round of the thread that samples them.
-- Each module Examples holds runs at concrete inputs and the theorems at them.
--
-- Conventions. A pointer is whether it is set, or an Option of what it points to; null arguments of
-- the public functions are left out. Wayland requests, timer and xkb calls, and the calls into the
-- input context, the panel and the registry are recorded in the frontend's `out`, latest last.
-- Unsigned fields wrap as C's do. The clock's value is an argument of the operation that reads it.
--
-- Parameters: what `send` and `recv` answer; the request handler and its state; whether the
-- context is focused after the calls made; whether memory, a grab and a duplicated descriptor are
-- had; the configuration, language and engine names that the indicator asks libtypio for; the
-- preedit of the context, what it tells while it is reset and as it takes the focus, and the last
-- mode; the modifier bits and keysyms, which libtypio and xkbcommon define; the engine and the
-- input context, a record `Host` of what libtypio's calls answer to the router and do to its
-- session; what the panel's code answers to the coordinator; what the render device, the allocator
-- and FreeType answer to the atlas; what libtypio keeps for an application.
--
-- Fuel: `extract` runs on the number of bytes in the buffer, since each frame removes four bytes at
-- least; `deframe` on the number of bytes of the stream; the span of a JSON object on the length of
-- its text, since each round reads a byte; the doubling of a buffer's capacity on 64 rounds, which
-- reach any size below 2^63; a decimal on ten digits, which an int needs at most; the probe
-- of the glyph table on its 131072 slots, the bound of the source's loop.
--
-- Not modelled: logging, the text of traces and the runtime-state signal; the timing of slow updates
-- of input_method.c; JSON arrays and the numbers that are not ints; the polling, the dispatch and the
-- reconnection of the event loop, and the watchdog's lock and waits; the drawing of the panel, its
-- fonts and layout, which are calls of a GPU library over floating-point numbers; the state service,
-- the tray, notifications, audio, D-Bus, configuration and start-up; the accept path and the set-up
-- of the socket server.
pub mod Prelude
pub mod Glyph
pub mod Ipc
pub mod Engine
pub mod Keyboard
pub mod Text
pub mod Panel
pub mod InputMethod
pub mod EventLoop
pub mod Identity
pub mod Watchdog
