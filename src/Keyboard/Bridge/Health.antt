-- ===== src/Keyboard/Bridge/Health.antt =====
-- The readiness and the health check of the virtual keyboard (src/wayland/keyboard/bridge.c).
use typiod_wayland.Prelude.{ℕ, ◌≤◌, ◌<◌, ◌≡◌, ◌↔◌, true, false, arith}
use typiod_wayland.Keyboard.State.{Frontend, is_vk_needs_keymap}
use typiod_wayland.Keyboard.Bridge.{vk_health_check, vk_trigger_fail_safe, has_grab}

-- A running frontend with a grab is stopped by the health check exactly when it still waits for
-- its keymap and the deadline, which is set, has come.
pub health_check-stops_iff :
    (now : ℕ) (f : Frontend)
    → f.running ≡ true
    → has_grab f.keyboard ≡ true
    → ((vk_health_check now f).running ≡ false)
      ↔ (is_vk_needs_keymap f.vk.state ≡ true)
        × (0 < f.vk.keymap_deadline_ms)
        × (f.vk.keymap_deadline_ms ≤ now)
unfolding vk_health_check vk_trigger_fail_safe
health_check-stops_iff now f r g = ground arith
