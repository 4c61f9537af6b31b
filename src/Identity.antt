-- ===== src/Identity.antt =====
-- The identity of the focused application (src/wayland/foreign/identity.c): the toplevels that the
-- compositor advertises, the one taken for focused, and the engine and mode kept per application.
-- A pointer to a toplevel is what it points to; a toplevel's handle is its number.
pub mod Newest
pub mod Recent
pub mod Memory
mod Examples
use typiod_wayland.Prelude.{
  ℕ, ◌+◌, Bool, true, false, not, ◌&&◌, ◌||◌, List, [], ◌∷◌, ◌++◌, Option, none, some, u32, ltb,
  ◌==◌, if◌then◌else◌,
}
use typiod_wayland.Text.Bytes.{codes, same_text, is_empty}

-- `TypioWlForeignToplevel`
pub record Toplevel : Type 0 where
  pub handle : ℕ
  pub app_id : Option (List ℕ)
  pub title : Option (List ℕ)
  pub identifier : Option (List ℕ)
  pub serial : ℕ

-- `TypioWlIdentityProvider`; the display is its number.
pub record Provider : Type 0 where
  pub display : Option ℕ
  pub registry : Bool
  pub list : Bool
  pub toplevels : List Toplevel
  pub current : Option Toplevel
  pub next_serial : ℕ

-- `typio_wl_identity_provider_new`
abbrev pub new_provider : Provider
new_provider = record {
  display = none;
  registry = false;
  list = false;
  toplevels = [];
  current = none;
  next_serial = 1;
}

-- The loop of `toplevel_update_current`.
unfoldable pub best_of : Option Toplevel → List Toplevel → Option Toplevel
best_of best [] = best
best_of none (t ∷ ts) = best_of (some t) ts
best_of (some best) (t ∷ ts) = best_of (some (if ltb best.serial t.serial then t else best)) ts

abbrev pub update_current : Provider → Provider
update_current p = record p { current = best_of none p.toplevels }

-- The first toplevel of a handle, with a new serial.
unfoldable pub bump : ℕ → ℕ → List Toplevel → List Toplevel
bump handle serial [] = []
bump handle serial (t ∷ ts) =
    if t.handle == handle then record t { serial = serial } ∷ ts else t ∷ bump handle serial ts

unfoldable pub remove : ℕ → List Toplevel → List Toplevel
remove handle [] = []
remove handle (t ∷ ts) = if t.handle == handle then ts else t ∷ remove handle ts

abbrev pub has_handle : ℕ → List Toplevel → Bool
has_handle handle [] = false
has_handle handle (t ∷ ts) = t.handle == handle || has_handle handle ts

unfoldable pub handle_done : ℕ → Provider → Provider
handle_done handle p = update_current (
    if has_handle handle p.toplevels
    then record p {
      toplevels = bump handle p.next_serial p.toplevels;
      next_serial = u32 (p.next_serial + 1);
    }
    else p)

unfoldable pub handle_closed : ℕ → Provider → Provider
handle_closed handle p = update_current (record p { toplevels = remove handle p.toplevels })

-- `handle_list_toplevel`, by whether there is memory.
unfoldable pub list_toplevel : Bool → ℕ → Provider → Provider
list_toplevel allocated handle p =
    let t : Toplevel = record {
      handle = handle;
      app_id = none;
      title = none;
      identifier = none;
      serial = p.next_serial;
    } in
    if not allocated
    then p
    else update_current
        (record p { toplevels = t ∷ p.toplevels; next_serial = u32 (p.next_serial + 1) })

unfoldable pub list_finished : Provider → Provider
list_finished p = record p { toplevels = []; current = none; list = false }

-- `registry_handle_global` of the toplevel list, by whether the bind succeeds.
unfoldable pub handle_global : Bool → Provider → Provider
handle_global bound p = record p { list = bound }

abbrev pub same_display : Option ℕ → ℕ → Bool
same_display none display = false
same_display (some d) display = d == display

-- `typio_wl_identity_provider_bind` up to its roundtrip, by whether a registry is had, and whether
-- it succeeds.
unfoldable pub provider_bind : Bool → ℕ → Provider → Provider × Bool
provider_bind registry display p =
    let dropped = record p { toplevels = []; current = none; list = false } in
    if same_display p.display display && p.registry
    then (p, true)
    else if registry
    then (record dropped { display = some display; registry = true }, true)
    else (record dropped { display = none; registry = false }, false)

unfoldable pub provider_unbind : Provider → Provider
provider_unbind p = record p {
  toplevels = [];
  current = none;
  list = false;
  registry = false;
  display = none;
}

-- A text of a toplevel, where it is copied. The listener's data is the provider, and these handlers
-- take it for a toplevel: they free and overwrite fields of the provider, which C does not define.
unfoldable pub handle_text : Bool → Provider → Option Provider
handle_text copied p = if copied then none else some p

pub record Identity : Type 0 where
  pub provider_name : List ℕ
  pub app_id : List ℕ
  pub stable_key : List ℕ

abbrev pub name : List ℕ
name = codes "ext_foreign_toplevel_list_v1"

-- What a key is made of: the identifier where there is one.
abbrev pub key_of : Option (List ℕ) → List ℕ → List ℕ
key_of none app_id = app_id
key_of (some []) app_id = app_id
key_of (some (c ∷ cs)) app_id = c ∷ cs

-- The identity of a toplevel with an application, where its texts are had.
abbrev pub identity_of : Bool → Toplevel → Option (List ℕ) → Option Identity
identity_of had t none = none
identity_of had t (some app_id) =
    if is_empty app_id || not had
    then none
    else some (record {
      provider_name = name;
      app_id = app_id;
      stable_key = name ++ codes ":" ++ key_of t.identifier app_id;
    })

-- `typio_wl_identity_provider_query_current`
unfoldable pub query_current : Bool → Provider → Option Identity
query_current had p = elim p.current [ none ↦ none | some t ↦ identity_of had t t.app_id ]
