-- ===== src/Ppu/Scan.antt =====
-- The scan of the object memory at the start of a line: at most ten sprites that it crosses, in
-- the order in which they are drawn.
pub mod Bounds
use zenith_gb.Base.{
  ℕ, zero, suc, ◌+◌, ◌*◌, ◌≤◌, ◌<◌, ◌≡◌, refl, Bool, ◌&&◌, List, [], ◌∷◌, ◌++◌, Option, none, some,
  ltb, leb, length, get_elem?, arith, ◌>>=◌, if_cases, if◌then◌else◌,
}
use zenith_gb.Ppu.{Ppu, Sprite}

abbrev crosses : (ly obj_height y_coord : ℕ) → Bool
crosses ly obj_height y_coord = leb y_coord (ly + 16) && ltb (ly + 16) (y_coord + obj_height)

-- The loop over the object memory: `n` entries are left, from `cursor` on. Sprites are in front of
-- `found`, which is the buffer in reverse.
unfoldable pub scan : (n cursor ly obj_height : ℕ) → List ℕ → List Sprite → Option (List Sprite)
scan zero cursor ly obj_height oam found = some found
scan (suc n) cursor ly obj_height oam found =
    let rest : List Sprite → Option (List Sprite) = λ f. scan n (cursor + 1) ly obj_height oam f in
    (get_elem? oam (cursor * 4 + 1) >>= (λ x_coord. get_elem? oam (cursor * 4) >>= (λ y_coord.
      if crosses ly obj_height y_coord
      then (get_elem? oam (cursor * 4 + 2) >>= (λ tile. get_elem? oam (cursor * 4 + 3) >>= (λ attr.
          let more = record { y = y_coord; x = x_coord; tile = tile; attr = attr } ∷ found in
          if leb 10 (length more) then some more else rest more)))
      else rest found)))

-- `sort_by(|a, b| b.x.cmp(&a.x))`: a stable sort, the greatest x first.
unfoldable pub insert_sprite : Sprite → List Sprite → List Sprite
insert_sprite s [] = s ∷ []
insert_sprite s (t ∷ ts) = if ltb s.x t.x then t ∷ insert_sprite s ts else s ∷ t ∷ ts

unfoldable pub sort_sprites : List Sprite → List Sprite
sort_sprites [] = []
sort_sprites (s ∷ ss) = insert_sprite s (sort_sprites ss)

pub mode_oam_scan : Ppu → Option Ppu
mode_oam_scan p =
    scan 40 0 p.ly (if p.lcdc_obj_size then 16 else 8) p.oam []
    >>= (λ found. some (record p { sprite_buffer = if p.opri then sort_sprites found else found }))
