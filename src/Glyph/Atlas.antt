-- ===== src/Glyph/Atlas.antt =====
-- The glyph atlas (src/ui/panel/glyph_atlas.c and glyph_atlas.h): an open-addressing table of
-- slots over one texture. The answers of the device, of the allocator and of FreeType to one call
-- are a `Render`; calls of the GPU library are recorded in `out`, latest last.
pub mod Table
pub mod Bounds
pub mod Runs
pub mod Room
mod Examples
use typiod_wayland.Prelude.{
  ℕ, zero, suc, ◌+◌, ◌*◌, ◌%◌, Bool, true, false, ◌&&◌, List, [], ◌∷◌, ◌++◌, Option, none, some,
  u32, u64, ltb, leb, ◌==◌, if◌then◌else◌, take, drop,
}
use typiod_wayland.Glyph.Pack.{GlyphPacker, empty, place}

-- GLYPH_ATLAS_DIM
abbrev pub dim : ℕ
dim = 2048

-- GLYPH_ATLAS_PAD
abbrev pub pad : ℕ
pad = 1

-- GLYPH_SLOT_CAP
abbrev pub slot_cap : ℕ
slot_cap = 131072

-- `left` and `top` are the bit patterns of the int16_t fields.
pub record GlyphSlot : Type 0 where
  pub key : ℕ
  pub u : ℕ
  pub v : ℕ
  pub w : ℕ
  pub h : ℕ
  pub left : ℕ
  pub top : ℕ
  pub occupied : Bool
  pub drawable : Bool

-- A zeroed slot.
abbrev pub blank : GlyphSlot
blank = record {
  key = 0;
  u = 0;
  v = 0;
  w = 0;
  h = 0;
  left = 0;
  top = 0;
  occupied = false;
  drawable = false;
}

-- The slots by their index, which is below `slot_cap`.
abbrev pub Slots : Type 0
Slots = ℕ → GlyphSlot

pub data GpuCall : Type 0 where
  wait_idle : GpuCall
  image_release : GpuCall
  upload_shutdown : GpuCall
  upload_region : (u v w h : ℕ) (tight : List ℕ) → GpuCall

-- `slots` is also whether the image is there: `glyph_atlas_ensure` sets both or none, and the
-- reset and the shutdown clear both. The two counters of the file outlive a reset.
pub record GlyphAtlas : Type 0 where
  pub slots : Option Slots
  pub packer : GlyphPacker
  pub live_count : ℕ
  pub packer_exhausted : Bool
  pub rebuilds : ℕ
  pub glyphs_rasterized : ℕ
  pub out : List GpuCall

-- The bitmap that FreeType rendered: `left` and `top` are its bearings' bit patterns.
pub record Bitmap : Type 0 where
  pub left : ℕ
  pub top : ℕ
  pub width : ℕ
  pub rows : ℕ
  pub pitch : ℕ
  pub buffer : List ℕ

-- What the calls of one operation answer: the device, the zeroed texels, the image, the table, the
-- loaded glyph, the repacked bitmap and its upload.
pub record Render : Type 0 where
  pub device : Bool
  pub zeroed : Bool
  pub image : Bool
  pub table : Bool
  pub load : Option Bitmap
  pub tight : Bool
  pub uploaded : Bool

-- `glyph_atlas_ensure`: it returns true where the slots are there after it.
unfoldable pub ensure : Render → GlyphAtlas → GlyphAtlas
ensure e a = elim a.slots [
  | some t ↦ a
  | none ↦
      if e.device && e.zeroed && e.image
      then if e.table
        then record a { slots = some (λ i. blank); packer = empty }
        else record a { out = a.out ++ GpuCall.image_release ∷ [] }
      else a
]

-- `glyph_atlas_entry_count`
unfoldable pub entry_count : GlyphAtlas → ℕ
entry_count a = elim a.slots [ none ↦ 0 | some t ↦ a.live_count ]

abbrev pub drained : Render → List GpuCall
drained e = if e.device then GpuCall.wait_idle ∷ [] else []

-- `glyph_atlas_reset`
unfoldable pub reset : Render → GlyphAtlas → GlyphAtlas
reset e a = elim a.slots [
  | none ↦ a
  | some t ↦ record {
    slots = none;
    packer = empty;
    live_count = 0;
    packer_exhausted = false;
    rebuilds = u64 (a.rebuilds + 1);
    glyphs_rasterized = a.glyphs_rasterized;
    out = a.out ++ drained e ++ GpuCall.image_release ∷ [];
  }
]

-- `glyph_atlas_reclaim`
unfoldable pub reclaim : Render → GlyphAtlas → Bool × GlyphAtlas
reclaim e a = elim a.slots [
  | none ↦ (false, a)
  | some t ↦ if a.packer_exhausted then (true, reset e a) else (false, a)
]

-- `glyph_atlas_shutdown`
unfoldable pub shutdown : Render → GlyphAtlas → GlyphAtlas
shutdown e a =
    let released : List GpuCall = elim a.slots [
      | none ↦ []
      | some t ↦ drained e ++ GpuCall.image_release ∷ []
    ] in
    record {
      slots = none;
      packer = empty;
      live_count = 0;
      packer_exhausted = false;
      rebuilds = a.rebuilds;
      glyphs_rasterized = a.glyphs_rasterized;
      out = a.out ++ released ++ GpuCall.upload_shutdown ∷ [];
    }

-- The key of a glyph: `font_id << 32 | glyph_id` on two uint32_t values.
abbrev pub key_of : ℕ → ℕ → ℕ
key_of font_id glyph_id = font_id * 4294967296 + glyph_id

-- The first slot that is probed; a mask of `slot_cap - 1` is a remainder.
unfoldable pub home : ℕ → ℕ
home key = u32 (u64 (key * 1099511628211)) % slot_cap

pub data Probe : Type 0 where
  hit : ℕ → Probe
  vacant : ℕ → Probe
  full : Probe

-- What a slot says to a probe for a key.
pub data Sight : Type 0 where
  same : Sight
  free : Sight
  other : Sight

unfoldable pub sight : GlyphSlot → ℕ → Sight
sight s key = if s.occupied then if s.key == key then Sight.same else Sight.other else Sight.free

-- The loop of `glyph_atlas_get` from slot `i`, with `n` probes left of `slot_cap`.
unfoldable pub probe : Slots → ℕ → ℕ → ℕ → Probe
probe t key i zero = Probe.full
probe t key i (suc n) = elim (sight (t i) key) [
  | Sight.same ↦ Probe.hit i
  | Sight.free ↦ Probe.vacant i
  | Sight.other ↦ probe t key (u32 (i + 1) % slot_cap) n
]

-- `g_atlas.slots[i] = slot`
abbrev pub put : Slots → ℕ → GlyphSlot → Slots
put t i s j = if j == i then s else t j

abbrev pub u16 : ℕ → ℕ
u16 n = n % 65536

-- The bitmap's rows without the padding of their pitch.
unfoldable pub repack : Bitmap → ℕ → ℕ → List ℕ
repack b row zero = []
repack b row (suc n) = take b.width (drop (row * b.pitch) b.buffer) ++ repack b (row + 1) n

-- The upload of a bitmap at its place in the texture.
unfoldable pub upload : Render → GlyphAtlas → GlyphSlot → Bitmap → ℕ → ℕ → GlyphSlot × GlyphAtlas
upload e a s b u v =
    if e.tight
    then (
      if e.uploaded
          then record s { u = u16 u; v = u16 v; w = u16 b.width; h = u16 b.rows; drawable = true }
          else s,
      record a { out = a.out ++ GpuCall.upload_region u v b.width b.rows (repack b 0 b.rows) ∷ [] },
    )
    else (s, a)

-- A cell that an empty atlas has room for.
abbrev pub fits : Bitmap → Bool
fits b =
    ltb 0 b.width && ltb 0 b.rows && leb (u32 (b.width + pad)) dim && leb (u32 (b.rows + pad)) dim

-- What follows the answer of `glyph_packer_place`.
abbrev pub place_result :
    Render → GlyphAtlas → GlyphSlot → Bitmap → Option (ℕ × ℕ) → GlyphSlot × GlyphAtlas
place_result e a s b (some (u, v)) = upload e a s b u v
place_result e a s b none = (s, if fits b then record a { packer_exhausted = true } else a)

-- The slot of a glyph that FreeType answered for, and the atlas after its place was sought.
unfoldable pub rasterise : Render → GlyphAtlas → ℕ → GlyphSlot × GlyphAtlas
rasterise e a key =
    let s : GlyphSlot = record blank { key = key; occupied = true } in
    elim e.load [
      | none ↦ (s, a)
      | some b ↦
          let (r, p) = place a.packer dim pad b.width b.rows in
          place_result e (record a { packer = p }) (record s { left = u16 b.left; top = u16 b.top })
            b r
    ]

-- The miss of `glyph_atlas_get`, at the empty slot where the probe stopped.
unfoldable pub insert : Render → GlyphAtlas → Slots → ℕ → ℕ → GlyphAtlas
insert e a t key i =
    let (s, a') = rasterise e a key in
    record a' {
      slots = some (put t i s);
      live_count = u32 (a'.live_count + 1);
      glyphs_rasterized = u64 (a'.glyphs_rasterized + 1);
    }

-- What follows the probe.
abbrev pub resolve : Render → GlyphAtlas → Slots → ℕ → Probe → Option ℕ × GlyphAtlas
resolve e a t key (Probe.hit i) = (some i, a)
resolve e a t key (Probe.vacant i) = (some i, insert e a t key i)
resolve e a t key Probe.full = (none, a)

-- The lookup in an atlas that is there or not.
abbrev pub look_up : Render → GlyphAtlas → Option Slots → ℕ → Option ℕ × GlyphAtlas
look_up e a none key = (none, a)
look_up e a (some t) key = resolve e a t key (probe t key (home key) slot_cap)

-- `glyph_atlas_get`: the index of the slot whose address is returned.
unfoldable pub get : Render → GlyphAtlas → ℕ → ℕ → Option ℕ × GlyphAtlas
get e a font_id glyph_id =
    let ready = ensure e a in look_up e ready ready.slots (key_of font_id glyph_id)

-- The zero-initialised globals.
abbrev pub no_atlas : GlyphAtlas
no_atlas = record {
  slots = none;
  packer = empty;
  live_count = 0;
  packer_exhausted = false;
  rebuilds = 0;
  glyphs_rasterized = 0;
  out = [];
}
