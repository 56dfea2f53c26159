-- ===== src/Soc/Runs.antt =====
-- The SOC as it runs on its own, with no transfer under way.
use zenith_gb.Base.{
  ℕ, zero, suc, ◌+◌, ◌≡◌, refl, Bool, false, not, ◌||◌, Option, none, some, ◌==◌, bit_and, if_cases,
  ◌>>=◌, Returns, >>=-Returns, Returns-some,
}
use zenith_gb.Soc.State.{Controller, mbc_clock, Parts, Soc}
use zenith_gb.Soc.Dma.{clock_dma, clock_hdma, run_dma, run_hdma, take_request}
use zenith_gb.Soc.Clock.{
  clock_4_mhz, clock_ppu, clock_timer, clock_apu, clock_serial, clock_parts, clock_with, clock,
  context,
}
use zenith_gb.Timer
use zenith_gb.Serial
use zenith_gb.Ppu.Modes.Validity
use zenith_gb.Apu.Unit.NoPanic

-- The picture and sound units are valid, no transfer to a memory is asked for or runs, the serial
-- port does not send, and the controller of the cartridge satisfies `K`.
abbrev pub IsFree : (Controller → Type 0) → Parts → Type 0
IsFree K p =
    Validity.IsValid p.ppu
    × NoPanic.IsValid p.apu
    × (p.active_dma ≡ none)
    × (p.dma_request ≡ none)
    × (p.hdma ≡ none)
    × (p.serial.reg_enable ≡ false)
    × K p.mbc

module _ (K : Controller → Type 0) (keeps : (c : Controller) → K c → K (mbc_clock c)) where
  abbrev Stays : Option Parts → Type 0
  Stays = Returns (IsFree K)

  clock_4_mhz-IsFree :
      (double_speed : Bool) (cycle : ℕ) (cb : Parts → Option Parts) (p : Parts)
      → IsFree K p
      → Stays (cb p)
      → Stays (clock_4_mhz double_speed cycle cb p)
  unfolding clock_4_mhz
  clock_4_mhz-IsFree double_speed cycle cb p free done =
      if_cases Stays (not double_speed || bit_and cycle 1 == 0) (λ _. done) (λ _. Returns-some free)

  clock_dma-IsFree : (p : Parts) → IsFree K p → Stays (clock_dma p)
  unfolding clock_dma run_dma take_request
  clock_dma-IsFree p (ppu, apu, active, request, hdma, idle, kept) =
      simp (active) (simp (request) (Returns-some (ppu, apu, active, request, hdma, idle, kept)))

  clock_hdma-IsFree : (p : Parts) → IsFree K p → Stays (clock_hdma p)
  unfolding clock_hdma run_hdma
  clock_hdma-IsFree p (ppu, apu, active, request, hdma, idle, kept) =
      simp (hdma) (Returns-some (ppu, apu, active, request, hdma, idle, kept))

  clock_ppu-IsFree : (exit : Bool) (p : Parts) → IsFree K p → Stays (clock_ppu exit p)
  unfolding clock_ppu
  clock_ppu-IsFree exit p (ppu, apu, active, request, hdma, idle, kept) =
      >>=-Returns (Validity.clock-IsValid exit p.ppu (context p) ppu)
        (λ r valid. Returns-some (valid, apu, active, request, hdma, idle, kept))

  clock_apu-IsFree : (p : Parts) → IsFree K p → Stays (clock_apu p)
  unfolding clock_apu
  clock_apu-IsFree p (ppu, apu, active, request, hdma, idle, kept) =
      >>=-Returns (NoPanic.clock-IsValid p.apu apu)
        (λ r valid. Returns-some (ppu, valid, active, request, hdma, idle, kept))

  clock_serial-IsFree : (p : Parts) → IsFree K p → Stays (clock_serial p)
  unfolding clock_serial Serial.clock
  clock_serial-IsFree p (ppu, apu, active, request, hdma, idle, kept) =
      simp idle (Returns-some (ppu, apu, active, request, hdma, idle, kept))

  with_clocked :
      (p : Parts)
      → IsFree K p
      → IsFree K
          (record (clock_timer Timer.clock p) { mbc = mbc_clock (clock_timer Timer.clock p).mbc })
  unfolding clock_timer
  with_clocked p (ppu, apu, active, request, hdma, idle, kept) =
      (ppu, apu, active, request, hdma, idle, keeps p.mbc kept)

  clock_parts-IsFree :
      (exit : Bool) (cycle : ℕ) (p : Parts)
      → IsFree K p
      → Stays (clock_parts exit Timer.clock cycle p)
  unfolding clock_parts clock_timer
  clock_parts-IsFree exit cycle p free = >>=-Returns (clock_dma-IsFree p free) (λ a f1.
      >>=-Returns (clock_4_mhz-IsFree _ cycle clock_hdma a f1 (clock_hdma-IsFree a f1)) (λ b f2.
        >>=-Returns (clock_4_mhz-IsFree _ cycle (clock_ppu exit) b f2 (clock_ppu-IsFree exit b f2))
          (λ c f3.
            >>=-Returns
              (clock_4_mhz-IsFree _ cycle _ (clock_timer Timer.clock c) f3
                (Returns-some (with_clocked c f3)))
              (λ d f4.
                >>=-Returns (clock_4_mhz-IsFree _ cycle clock_apu d f4 (clock_apu-IsFree d f4))
                  (λ e f5. clock_serial-IsFree e f5)))))

  pub clock-IsFree :
      (exit : Bool) (s : Soc)
      → IsFree K s.parts
      → Returns (λ (t : Soc). IsFree K t.parts × (t.cycles ≡ s.cycles + 1)) (clock exit s)
  unfolding clock clock_with
  clock-IsFree exit s free =
      >>=-Returns (clock_parts-IsFree exit s.cycles s.parts free) (λ p f. Returns-some (f, refl))

unfoldable pub run : (exit : Bool) → ℕ → Soc → Option Soc
run exit zero s = some s
run exit (suc n) s = clock exit s >>= (λ t. run exit n t)
