-- ===== src/Soc/Dma.antt =====
-- The transfers to the object memory and, on a CGB, to the video memory.
use zenith_gb.Base.{
  ℕ, zero, suc, ◌+◌, ◌-◌, not, ◌&&◌, ◌||◌, Option, none, some, ◌==◌, leb, ltb, min, bit_and,
  get_elem?, checked_sub, checked_add, ◌>>=◌, debug_assert, if◌then◌else◌,
}
use zenith_gb.Util.{value}
use zenith_gb.Ppu.Memory.{read_vram, write_vram, oam_dma}
use zenith_gb.Soc.State.{Parts, DmaTransfer, Hdma, mbc_read}
use zenith_gb.Soc.Read.{wram_address}

-- `dma_read!`: from 0xFE00 on, `unreachable!`.
pub dma_read : ℕ → Parts → Option ℕ
dma_read address p =
    if leb address 0x7fff
    then mbc_read p.mbc address
    else if leb address 0x9fff
    then read_vram address p.ppu
    else if leb address 0xbfff
    then mbc_read p.mbc address
    else if leb address 0xcfff
    then get_elem? p.wram (address - 0xc000)
    else if leb address 0xdfff
    then get_elem? p.wram (wram_address p.svbk address)
    else if leb address 0xfdff
    then get_elem? p.wram (address - 0xe000)
    else none

-- One byte of a running transfer, which ends after 160 of them.
unfoldable pub run_dma : Option DmaTransfer → Parts → Option Parts
run_dma none p = some p
run_dma (some t) p = do
  let dst = t.src + t.count
  let address = if leb 0xfe00 dst then 0xc000 + bit_and dst 0x1fff else dst
  _ ← debug_assert (ltb address 0xfe00 || ltb 0xfe9f address)
  byte ← dma_read address p
  ppu ← oam_dma (0xfe00 + t.count) byte p.ppu
  let next : DmaTransfer = record t { cycles = t.cycles + 1; count = t.count + 1 }
  some (record p { ppu = ppu; active_dma = if ltb 0x9f next.count then none else some next })

-- A requested transfer starts after the byte of this cycle.
unfoldable pub take_request : Option ℕ → Parts → Parts
take_request none p = p
take_request (some byte) p = record p {
  dma_request = none;
  active_dma = some (record { src = value byte 0; count = 0; cycles = 1 });
}

unfoldable pub clock_dma : Parts → Option Parts
clock_dma p = run_dma p.active_dma p >>= (λ q. some (take_request q.dma_request q))

-- `n` bytes of a transfer to the video memory, from `offset` on.
unfoldable pub copy_blocks : Hdma → (n offset : ℕ) → Parts → Option Parts
copy_blocks h zero offset p = some p
copy_blocks h (suc n) offset p = checked_add 65536 h.src offset >>= (λ src_addr.
    checked_add 65536 h.dst offset >>= (λ dst_addr. dma_read src_addr p >>= (λ byte.
      write_vram dst_addr byte p.ppu
      >>= (λ ppu. copy_blocks h n (offset + 1) (record p { ppu = ppu })))))

unfoldable pub run_hdma : Option Hdma → Parts → Option Parts
run_hdma none p = some p
run_hdma (some h) p =
    if h.hblank_dma
    then (if p.ppu.hblank_cycle && not p.cpu_halted
        then (checked_sub h.initial h.count >>= (λ left.
            let bytes_to_transfer = min 0x10 left in
            copy_blocks h bytes_to_transfer h.count p >>= (λ q. some (record q {
              hdma =
                  if left - bytes_to_transfer == 0
                  then none
                  else some (record h { count = h.count + bytes_to_transfer });
            }))))
        else some p)
    else (copy_blocks h h.initial 0 p >>= (λ q. some (record q { hdma = none })))

unfoldable pub clock_hdma : Parts → Option Parts
clock_hdma p = run_hdma p.hdma p
