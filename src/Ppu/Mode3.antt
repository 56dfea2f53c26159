-- ===== src/Ppu/Mode3.antt =====
-- The length of mode 3, in which a line is drawn.
pub mod Bounds
use zenith_gb.Base.{
  ℕ, zero, suc, ◌+◌, ◌-◌, ◌*◌, ◌/◌, Bool, true, false, not, ◌&&◌, List, [], ◌∷◌, ◌++◌, Option, none,
  some, bit_and, ltb, leb, ◌>>=◌, if◌then◌else◌,
}
use zenith_gb.Ppu.{Ppu, Sprite, cycles_per_draw}

-- Where the window begins on this line, if it is drawn: the early returns of `draw_window` and
-- its result. `wx.saturating_sub(7)` is the subtraction of natural numbers.
pub window_pos : Ppu → Option ℕ
window_pos p =
    if not p.lcdc_wnd_enable
    then none
    else if not p.draw_window
    then none
    else if not p.cgb && not p.lcdc_bit_0
    then none
    else if leb 160 (p.wx - 7)
    then none
    else some (p.wx - 7)

-- `sprite_mask` as a flag beside each sprite, in the order of the search.
abbrev pub Fetches : Type 0
Fetches = List (Bool × Sprite)

abbrev unfetched : List Sprite → Fetches
unfetched [] = []
unfetched (s ∷ ss) = (false, s) ∷ unfetched ss

-- The first sprite that is not fetched and has begun, marked as fetched.
unfoldable pub fetch_next : ℕ → Fetches → Option Fetches
fetch_next x [] = none
fetch_next x ((fetched, s) ∷ rest) =
    let later = fetch_next x rest in
    if not fetched && ltb s.x (x + 8)
    then some ((true, s) ∷ rest)
    else (later >>= (λ ys. some ((fetched, s) ∷ ys)))

pub record Pipeline : Type 0 where
  pub x : ℕ
  pub bg_fifo_count : ℕ
  pub did_sprite_fetch : Bool
  pub sprites : Fetches
  pub sprite_penalty : ℕ

-- The two branches of a round of the loop.
abbrev pub advance : Option Fetches → Pipeline → Pipeline
advance (some sprites) l = record l {
  sprites = sprites;
  sprite_penalty = l.sprite_penalty + 6;
  did_sprite_fetch = true;
}
advance none l = record l {
  did_sprite_fetch = false;
  sprite_penalty =
      if l.did_sprite_fetch then l.sprite_penalty + (6 - l.bg_fifo_count) else l.sprite_penalty;
  bg_fifo_count = 8 - bit_and l.x 0x7;
  x = l.x + 1;
}

unfoldable pub round : Pipeline → Pipeline
round l = advance (fetch_next l.x l.sprites) l

-- The loop on fuel: a round fetches a sprite or moves on by a pixel.
unfoldable pub rounds : ℕ → Pipeline → Option Pipeline
rounds zero l = if ltb l.x 160 then none else some l
rounds (suc fuel) l = let rest = rounds fuel (round l) in if ltb l.x 160 then rest else some l

abbrev pub rounds_fuel : ℕ
rounds_fuel = 170

abbrev pub reversed : List Sprite → List Sprite → List Sprite
reversed [] ys = ys
reversed (x ∷ xs) ys = reversed xs (x ∷ ys)

abbrev at_start : List Sprite → Pipeline
at_start sprites = record {
  x = 0;
  bg_fifo_count = 8;
  did_sprite_fetch = false;
  sprites = unfetched sprites;
  sprite_penalty = 0;
}

pub sprites_cost : Ppu → Option ℕ
sprites_cost p =
    if p.lcdc_obj_enable
    then (rounds rounds_fuel (at_start (reversed p.sprite_buffer []))
        >>= (λ l. some l.sprite_penalty))
    else some 0

pub calc_mode3_len : Option ℕ → Ppu → Option ℕ
calc_mode3_len window p =
    let scx_penalty = bit_and p.scx 0x7 in
    let window_penalty : ℕ = elim window [ none ↦ 0 | some _ ↦ 6 ] in
    sprites_cost p
    >>= (λ sprites. some (cycles_per_draw + (scx_penalty + window_penalty + sprites) / 4))
