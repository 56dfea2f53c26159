-- ===== src/Soc/Echo.antt =====
-- The echo of the work RAM.
use zenith_gb.Base.{
  ℕ, ◌+◌, ◌-◌, ◌<◌, ◌≡◌, refl, Bool, true, false, some, leb, get_elem?, set, length, arith,
  set?-eq-set, get_elem?-set_self, if_cases, ◌∙◌, Returns,
}
use zenith_gb.Soc.State.{Parts}
use zenith_gb.Soc.Read.{read_mapped, wram_address}
use zenith_gb.Soc.Write.{write_mapped, on_wram}

module _ (p : Parts) (active_dma : Bool) (k : ℕ) (lt : k < 0x1e00) where
  read_echo : read_mapped active_dma (0xe000 + k) p ≡ get_elem? p.wram k
  unfolding read_mapped
  read_echo =
      let e1 : leb (0xe000 + k) 0x7fff ≡ false = ground arith in
      let e2 : leb (0xe000 + k) 0x9fff ≡ false = ground arith in
      let e3 : leb (0xe000 + k) 0xbfff ≡ false = ground arith in
      let e4 : leb (0xe000 + k) 0xcfff ≡ false = ground arith in
      let e5 : leb (0xe000 + k) 0xdfff ≡ false = ground arith in
      let e6 : leb (0xe000 + k) 0xfdff ≡ true = ground arith in
      let i : 0xe000 + k - 0xe000 ≡ k = omega arith in simp (e1, e2, e3, e4, e5, e6, i) refl

  write_echo : (byte : ℕ) → write_mapped active_dma (0xe000 + k) byte p ≡ on_wram p k byte
  unfolding write_mapped
  write_echo byte =
      let e1 : leb (0xe000 + k) 0x7fff ≡ false = ground arith in
      let e2 : leb (0xe000 + k) 0x9fff ≡ false = ground arith in
      let e3 : leb (0xe000 + k) 0xbfff ≡ false = ground arith in
      let e4 : leb (0xe000 + k) 0xcfff ≡ false = ground arith in
      let e5 : leb (0xe000 + k) 0xdfff ≡ false = ground arith in
      let e6 : leb (0xe000 + k) 0xfdff ≡ true = ground arith in
      let i : 0xe000 + k - 0xe000 ≡ k = omega arith in simp (e1, e2, e3, e4, e5, e6, i) refl

  read_low : p.svbk ≡ 0 → read_mapped active_dma (0xc000 + k) p ≡ get_elem? p.wram k
  unfolding read_mapped wram_address
  read_low svbk =
      let e1 : leb (0xc000 + k) 0x7fff ≡ false = ground arith in
      let e2 : leb (0xc000 + k) 0x9fff ≡ false = ground arith in
      let e3 : leb (0xc000 + k) 0xbfff ≡ false = ground arith in
      let e5 : leb (0xc000 + k) 0xdfff ≡ true = ground arith in
      let i : 0xc000 + k - 0xc000 ≡ k = omega arith in
      let j : k + 0 ≡ k = omega arith in
      simp (e1, e2, e3, e5, svbk, i, j)
        (if_cases (λ x. x ≡ get_elem? p.wram k) (leb (0xc000 + k) 0xcfff) (λ _. refl) (λ _. refl))

-- With a work RAM of its size and SVBK 0, a write to the echo, at 0xE000 to 0xFDFF, is read back
-- there and 0x2000 below, whether or not a transfer to the object memory runs.
pub write_mapped-echo :
    (p : Parts) (active_dma : Bool) (k byte : ℕ)
    → k < 0x1e00
    → length p.wram ≡ 0x12000
    → p.svbk ≡ 0
    → Returns
        (λ (q : Parts).
          (read_mapped active_dma (0xe000 + k) q ≡ some byte)
          × (read_mapped active_dma (0xc000 + k) q ≡ some byte))
        (write_mapped active_dma (0xe000 + k) byte p)
write_mapped-echo p active_dma k byte lt size svbk =
    let inside : k < length p.wram = omega (arith, size) in
    let q : Parts = record p { wram = set p.wram k byte } in
    let back = get_elem?-set_self p.wram k byte inside in
    (
      q,
      write_echo p active_dma k lt byte ∙ simp (set?-eq-set p.wram k byte inside) refl,
      (read_echo q active_dma k lt ∙ back, read_low q active_dma k lt svbk ∙ back),
    )
