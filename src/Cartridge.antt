-- ===== src/Cartridge.antt =====
-- src/cartridge/cartridge.rs: the cartridge header and its checksum. Reading the ROM file is the
-- caller's: the model starts from the bytes.
pub mod Checksum
mod Tests
use zenith_gb.Base.{
  ℕ, zero, suc, ◌+◌, ◌-◌, ◌%◌, Bool, true, false, List, Option, none, some, bit_and, ◌==◌, ◌!=◌,
  leb, length, get_elem?, take, drop, wrapping_sub, ◌>>=◌, if◌then◌else◌,
}

pub record CartridgeHeader : Type 0 where
  pub entrypoint : List ℕ
  pub logo : List ℕ
  pub title : List ℕ
  pub cgb_flag : ℕ
  pub lic_code_new : List ℕ
  pub sgb_flag : ℕ
  pub cart_type : ℕ
  pub rom_size : ℕ
  pub ram_size : ℕ
  pub dst_code : ℕ
  pub lic_code_old : ℕ
  pub rom_version_mask : ℕ
  pub header_checksum : ℕ
  pub global_checksum : List ℕ
  pub header_checksum_verified : ℕ

pub record Cartridge : Type 0 where
  pub bytes : List ℕ
  pub header : CartridgeHeader

-- `data[from..to]`
abbrev slice : List ℕ → ℕ → ℕ → Option (List ℕ)
slice bytes from to =
    if leb to (length bytes) then some (take (to - from) (drop from bytes)) else none

-- The loop over `count` addresses from `address` on.
pub checksum_loop : List ℕ → ℕ → ℕ → ℕ → Option ℕ
checksum_loop bytes address zero checksum = some checksum
checksum_loop bytes address (suc count) checksum = get_elem? bytes address >>= λ b.
    checksum_loop bytes (address + 1) count (wrapping_sub 256 (wrapping_sub 256 checksum b) 1)

-- `CartridgeHeader::new`: a file that is too short or whose checksum does not match is a panic.
unfoldable pub header_new : List ℕ → Option CartridgeHeader
header_new bytes = do
  entrypoint ← slice bytes 0x100 0x104
  logo ← slice bytes 0x104 0x134
  title ← slice bytes 0x134 0x144
  cgb_flag ← get_elem? bytes 0x143
  lic_code_new ← slice bytes 0x144 0x146
  sgb_flag ← get_elem? bytes 0x146
  cart_type ← get_elem? bytes 0x147
  rom_size ← get_elem? bytes 0x148
  ram_size ← get_elem? bytes 0x149
  dst_code ← get_elem? bytes 0x14a
  lic_code_old ← get_elem? bytes 0x14b
  rom_version_mask ← get_elem? bytes 0x14c
  header_checksum ← get_elem? bytes 0x14d
  global_checksum ← slice bytes 0x14e 0x150
  checksum ← checksum_loop bytes 0x134 25 0
  if checksum != header_checksum
      then none
      else some (record {
        entrypoint = entrypoint;
        logo = logo;
        title = title;
        cgb_flag = cgb_flag;
        lic_code_new = lic_code_new;
        sgb_flag = sgb_flag;
        cart_type = cart_type;
        rom_size = rom_size;
        ram_size = ram_size;
        dst_code = dst_code;
        lic_code_old = lic_code_old;
        rom_version_mask = rom_version_mask;
        header_checksum = header_checksum;
        global_checksum = global_checksum;
        header_checksum_verified = checksum;
      })

unfoldable pub is_cgb : CartridgeHeader → Bool
is_cgb hdr = bit_and hdr.cgb_flag 0x80 != 0
