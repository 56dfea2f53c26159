-- ===== src/Ppu/Mode3/Bounds.antt =====
-- The loop over a line ends, and its sprites cost at most eleven cycles each.
use zenith_gb.Base.{
  ℕ, zero, suc, ◌+◌, ◌-◌, ◌*◌, ◌≤◌, ◌<◌, ◌≡◌, refl, ap, true, false, List, [], ◌∷◌, Option, none,
  some, ltb, length, arith, if_cases, Bool-cases, Option-cases, inl, inr, Returns, >>=-Returns,
  Returns-some, if◌then◌else◌,
}
use zenith_gb.Base.Bits.{bit_and-le}
use zenith_gb.Ppu.{Ppu, Sprite}
use zenith_gb.Ppu.Mode3.{
  Fetches, unfetched, fetch_next, Pipeline, round, rounds, rounds_fuel, reversed, sprites_cost,
  at_start, calc_mode3_len,
}

-- The sprites that are still to be fetched.
abbrev left : Fetches → ℕ
left [] = 0
left ((true, s) ∷ fs) = left fs
left ((false, s) ∷ fs) = suc (left fs)

fetch_next-left : (x : ℕ) (fs ys : Fetches) → fetch_next x fs ≡ some ys → left ys + 1 ≡ left fs
unfolding fetch_next
fetch_next-left x [] ys e = absurd (ground arith)
fetch_next-left x ((true, s) ∷ fs) ys e = elim (Option-cases (fetch_next x fs)) [
  | inl n ↦ absurd (ground arith)
  | inr (zs, q) ↦
      let ih = fetch_next-left x fs zs q in
      let made : (true, s) ∷ zs ≡ ys = ground arith in omega (arith, ap left made)
]
fetch_next-left x ((false, s) ∷ fs) ys e = elim (Bool-cases (ltb s.x (x + 8))) [
  | inl begun ↦ let made : (true, s) ∷ fs ≡ ys = ground arith in omega (arith, ap left made)
  | inr ahead ↦ elim (Option-cases (fetch_next x fs)) [
    | inl n ↦ absurd (ground arith)
    | inr (zs, q) ↦
        let ih = fetch_next-left x fs zs q in
        let made : (false, s) ∷ zs ≡ ys = ground arith in omega (arith, ap left made)
  ]
]

-- What a round keeps: each sprite to come may still cost eleven, and five wait after a fetch.
abbrev Budget : ℕ → Pipeline → Type 0
Budget b l =
    (1 ≤ l.bg_fifo_count)
    × (l.sprite_penalty + 11 * left l.sprites + (if l.did_sprite_fetch then 5 else 0) ≤ b)
    × (l.x ≤ 160)

abbrev measure : Pipeline → ℕ
measure l = 160 - l.x + left l.sprites

round_lem :
    (b : ℕ) (l : Pipeline)
    → Budget b l
    → l.x < 160
    → Budget b (round l) × (measure (round l) + 1 ≡ measure l)
unfolding round
round_lem b l budget lt = elim (Option-cases (fetch_next l.x l.sprites)) [
  | inl n ↦ simp n ((omega (arith, (bit_and-le l.x 7).1), ground arith, omega arith), omega arith)
  | inr (ys, q) ↦
      let k = fetch_next-left l.x l.sprites ys q in
      simp q ((budget.0, ground arith, budget.2), omega arith)
]

rounds_lem :
    (b fuel : ℕ) (l : Pipeline)
    → Budget b l
    → measure l ≤ fuel
    → Returns (λ m. m.sprite_penalty ≤ b) (rounds fuel l)
unfolding rounds
rounds_lem b zero l budget enough =
    let f : ltb l.x 160 ≡ false = ground arith in simp f (Returns-some (omega arith))
rounds_lem b (suc fuel) l budget enough = elim (Bool-cases (ltb l.x 160)) [
  | inl t ↦
      let (kept, shorter) = round_lem b l budget (ground arith) in
      simp t (rounds_lem b fuel (round l) kept (omega arith))
  | inr f ↦ simp f (Returns-some (omega arith))
]

left-unfetched : (ss : List Sprite) → left (unfetched ss) ≡ length ss
left-unfetched [] = refl
left-unfetched (s ∷ ss) = omega (arith, left-unfetched ss)

length-reversed : (xs ys : List Sprite) → length (reversed xs ys) ≡ length xs + length ys
length-reversed [] ys = omega arith
length-reversed (x ∷ xs) ys = omega (arith, length-reversed xs (x ∷ ys))

sprites_cost-bound :
    (p : Ppu) → length p.sprite_buffer ≤ 10 → Returns (λ n. n ≤ 110) (sprites_cost p)
unfolding sprites_cost
sprites_cost-bound p le =
    let count : left (unfetched (reversed p.sprite_buffer [])) ≡ length p.sprite_buffer =
      omega
        (arith, left-unfetched (reversed p.sprite_buffer []), length-reversed p.sprite_buffer []) in
    if_cases (Returns (λ n. n ≤ 110)) p.lcdc_obj_enable
      (λ t.
        >>=-Returns
          (rounds_lem 110 rounds_fuel (at_start (reversed p.sprite_buffer []))
            (omega arith, omega arith, omega arith) (omega arith))
          (λ l h. Returns-some h))
      (λ f. Returns-some (omega arith))

-- With at most ten sprites on a line, the loop over its pixels ends, and mode 3 takes from 43 to
-- 73 cycles, with or without a window.
pub calc_mode3_len-bounds :
    (window : Option ℕ) (p : Ppu)
    → length p.sprite_buffer ≤ 10
    → Returns (λ n. (43 ≤ n) × (n ≤ 73)) (calc_mode3_len window p)
unfolding calc_mode3_len
calc_mode3_len-bounds none p le = >>=-Returns (sprites_cost-bound p le) (λ n n_le.
    Returns-some (omega (arith, (bit_and-le p.scx 0x7).1), omega (arith, (bit_and-le p.scx 0x7).1)))
calc_mode3_len-bounds (some w) p le = >>=-Returns (sprites_cost-bound p le) (λ n n_le.
    Returns-some (omega (arith, (bit_and-le p.scx 0x7).1), omega (arith, (bit_and-le p.scx 0x7).1)))
