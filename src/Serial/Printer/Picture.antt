-- ===== src/Serial/Printer/Picture.antt =====
-- The picture that the printer makes of its RAM.
use zenith_gb.Base.{
  ℕ, zero, suc, ◌+◌, ◌*◌, ◌/◌, ◌%◌, ◌≤◌, ◌<◌, ◌≡◌, refl, ap, Bool, true, ◌&&◌, List, [], ◌∷◌, ◌++◌,
  length, ◌==◌, arith, Returns, get_elem?-total,
}
use zenith_gb.Serial.Printer.{Printer, Image, tile_line, tile_pixels, row, rows, print}

length-append : {A : Type 0} (xs ys : List A) → length (xs ++ ys) ≡ length xs + length ys
length-append [] ys = omega arith
length-append (x ∷ xs) ys = ground (arith, length-append xs ys)

length-tile_line : (palette lsb msb bits : ℕ) → length (tile_line palette lsb msb bits) ≡ bits
unfolding tile_line
length-tile_line palette lsb msb zero = refl
length-tile_line palette lsb msb (suc bits) = ap suc (length-tile_line palette lsb msb bits)

tile_pixels-total :
    (ram : List ℕ) (palette k y x : ℕ)
    → length ram ≡ 320 * k
    → k ≤ 18
    → y < 8 * k
    → x < 20
    → Returns (λ line. length line ≡ 8) (tile_pixels ram palette y x)
unfolding tile_pixels
tile_pixels-total ram palette k y x len le y_lt x_lt =
    let base : ℕ = (x + 20 * (y / 8)) % 360 * 16 + 2 * (y % 8) in
    let in_ram : base + 1 < length ram = omega arith in
    let (lsb, e) = get_elem?-total ram base (omega arith) in
    let (msb, e') = get_elem?-total ram (base + 1) in_ram in
    simp (e, e') (tile_line palette lsb msb 8, refl, length-tile_line palette lsb msb 8)

row-total :
    (ram : List ℕ) (palette k y tiles : ℕ)
    → length ram ≡ 320 * k
    → k ≤ 18
    → y < 8 * k
    → tiles ≤ 20
    → Returns (λ line. length line ≡ 8 * tiles) (row ram palette y tiles)
unfolding row
row-total ram palette k y zero len le y_lt tiles_le = ([], refl, refl)
row-total ram palette k y (suc tiles) len le y_lt tiles_le =
    let (rest, e, n) = row-total ram palette k y tiles len le y_lt (omega arith) in
    let (line, e', n') = tile_pixels-total ram palette k y tiles len le y_lt (omega arith) in
    simp (e, e') (rest ++ line, refl, ground (arith, length-append rest line))

-- Every row of an image has 160 pixels.
abbrev pub all_wide : Image → Bool
all_wide [] = true
all_wide (line ∷ lines) = length line == 160 && all_wide lines

all_wide-append :
    (image : Image) (line : List ℕ)
    → all_wide image ≡ true
    → length line ≡ 160
    → all_wide (image ++ line ∷ []) ≡ true
all_wide-append [] line h n = ground arith
all_wide-append (l ∷ ls) line h n = ground (arith, all_wide-append ls line)

rows-total :
    (ram : List ℕ) (palette k height : ℕ)
    → length ram ≡ 320 * k
    → k ≤ 18
    → height ≤ 8 * k
    → Returns (λ image. (length image ≡ height) × (all_wide image ≡ true)) (rows ram palette height)
unfolding rows
rows-total ram palette k zero len le h_le = ([], refl, (refl, refl))
rows-total ram palette k (suc y) len le h_le =
    let (above, e, (n, wide)) = rows-total ram palette k y len le (omega arith) in
    let (line, e', n') = row-total ram palette k y 20 len le (omega arith) (omega arith) in
    simp (e, e')
      (
        above ++ line ∷ [],
        refl,
        (
          ground (arith, length-append above (line ∷ [])),
          all_wide-append above line wide (omega arith),
        ),
      )

-- A RAM of `k` whole tile rows, 18 at most, is printed without a panic, as an image of 8 lines of
-- 160 pixels for each.
pub print-total :
    (p : Printer) (palette k : ℕ)
    → length p.ram ≡ 320 * k
    → k ≤ 18
    → Returns (λ image. (length image ≡ 8 * k) × (all_wide image ≡ true)) (print p palette)
unfolding print
print-total p palette k len le =
    let height : length p.ram / 40 ≡ 8 * k = omega arith in
    simp height (rows-total p.ram palette k (8 * k) len le (omega arith))
