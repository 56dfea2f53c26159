-- ===== src/Ppu/Scan/Bounds.antt =====
-- The scan stays inside the object memory and finds at most ten sprites.
use zenith_gb.Base.{
  ℕ, zero, suc, ◌+◌, ◌*◌, ◌≤◌, ◌<◌, ◌≡◌, refl, ◌∙◌, ap, List, [], ◌∷◌, leb, length, get_elem?,
  arith, if_cases, Returns, >>=-Returns, Returns-some, if◌then◌else◌,
}
use zenith_gb.Ppu.{Ppu, Sprite}
use zenith_gb.Ppu.Scan.{scan, crosses, insert_sprite, sort_sprites, mode_oam_scan}

inside : (xs : List ℕ) (i : ℕ) → i < length xs → Returns (λ a. Unit {0}) (get_elem? xs i)
inside [] i h = absurd (omega arith)
inside (x ∷ xs) zero h = Returns-some tt
inside (x ∷ xs) (suc i) h = inside xs i (omega arith)

AtMostTen : List Sprite → Type 0
AtMostTen found = length found ≤ 10

scan-AtMostTen :
    (n cursor ly obj_height : ℕ) (oam : List ℕ) (found : List Sprite)
    → (cursor + n) * 4 ≤ length oam
    → length found < 10
    → Returns AtMostTen (scan n cursor ly obj_height oam found)
unfolding scan AtMostTen
scan-AtMostTen zero cursor ly obj_height oam found room few = Returns-some (omega arith)
scan-AtMostTen (suc n) cursor ly obj_height oam found room few =
    >>=-Returns (inside oam (cursor * 4 + 1) (omega arith)) (λ x_coord u.
      >>=-Returns (inside oam (cursor * 4) (omega arith)) (λ y_coord v.
        if_cases (Returns AtMostTen) (crosses ly obj_height y_coord)
          (λ t. >>=-Returns (inside oam (cursor * 4 + 2) (omega arith)) (λ tile w.
            >>=-Returns (inside oam (cursor * 4 + 3) (omega arith)) (λ attr z.
              if_cases (Returns AtMostTen) (leb 10 (suc (length found)))
                (λ full. Returns-some (omega arith))
                (λ more.
                  scan-AtMostTen n (cursor + 1) ly obj_height oam _ (omega arith) (ground arith)))))
          (λ f. scan-AtMostTen n (cursor + 1) ly obj_height oam found (omega arith) few)))

length-insert_sprite :
    (s : Sprite) (ts : List Sprite) → length (insert_sprite s ts) ≡ suc (length ts)
unfolding insert_sprite
length-insert_sprite s [] = refl
length-insert_sprite s (t ∷ ts) = ground (arith, length-insert_sprite s ts)

length-sort_sprites : (ss : List Sprite) → length (sort_sprites ss) ≡ length ss
unfolding sort_sprites
length-sort_sprites [] = refl
length-sort_sprites (s ∷ ss) =
    length-insert_sprite s (sort_sprites ss) ∙ ap suc (length-sort_sprites ss)

-- What a scan changes: the sprite buffer alone.
abbrev pub Scanned : Ppu → Ppu → Type 0
Scanned p q =
    (length q.sprite_buffer ≤ 10)
    × (q.oam ≡ p.oam)
    × (q.ly ≡ p.ly)
    × (q.lcdc_enable ≡ p.lcdc_enable)
    × (q.window_line_counter ≡ p.window_line_counter)

-- With an object memory of 160 bytes the scan returns, finds at most ten sprites, and leaves the
-- object memory and the line.
pub mode_oam_scan_lem : (p : Ppu) → length p.oam ≡ 160 → Returns (Scanned p) (mode_oam_scan p)
unfolding mode_oam_scan AtMostTen
mode_oam_scan_lem p size =
    >>=-Returns
      (scan-AtMostTen 40 0 p.ly (if p.lcdc_obj_size then 16 else 8) p.oam [] (omega arith)
        (omega arith))
      (λ found few.
        let sorted : length (if p.opri then sort_sprites found else found) ≤ 10 =
          ground (arith, length-sort_sprites found) in
        Returns-some (sorted, refl, refl, refl, refl))
