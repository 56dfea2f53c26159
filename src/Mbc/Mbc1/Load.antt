-- ===== src/Mbc/Mbc1/Load.antt =====
-- What loading a cartridge sets up, and that saving and loading restore the battery RAM.
use Prim.Native.String.{String}
use zenith_gb.Base.{
  ap, sym, ◌∙◌, Bool, ℕ, zero, suc, ◌-◌, ◌*◌, ◌/◌, ◌^◌, ◌≤◌, ◌≡◌, ◌⊎◌, inl, inr, refl, true, false,
  List, Option, none, some, ◌==◌, ◌||◌, max, length, take, replicate, ltb, ◌>>=◌, arith, Returns,
  >>=-Returns, Returns-some, length-take, length-replicate,
}
use zenith_gb.Cartridge.{Cartridge}
use zenith_gb.Mbc.{Banks, SaveFile, ram_banks, rom_banks, read_save, load_save, save_to}
use zenith_gb.Mbc.Mbc1.{Mbc1, new, load, load_ram, save}
use zenith_gb.Mbc.Mbc1.Bounds.{IsValid, low_bits-pos}

-- A cartridge that the header and the file agree on: up to 2 MiB of ROM, all of it in the file, and
-- a RAM of none, 8 or 32 KiB if the type has one.
pub record IsCartridge (c : Cartridge) : Type 0 where
  pub rom : c.header.rom_size ≤ 6
  pub size : length c.bytes ≡ 32 * 1024 * 2 ^ c.header.rom_size
  pub ram :
      ((c.header.cart_type ≡ 1) × (c.header.ram_size ≡ 0))
      ⊎ ((2 ≤ c.header.cart_type) × (c.header.cart_type ≤ 3) × (c.header.ram_size ≤ 3))

abbrev IsRamSize : ℕ → Type 0
IsRamSize n = (n ≡ 0) ⊎ (n ≡ 8192) ⊎ (n ≡ 32768)

ram_banks-small :
    (code : ℕ) → code ≤ 3 → (b : Banks) × (ram_banks code ≡ some b) × IsRamSize b.size_bytes
unfolding ram_banks
ram_banks-small (suc (suc (suc (suc k)))) h = absurd (omega arith)
ram_banks-small zero h = (record { num_banks = 0; size_bytes = 0 }, refl, inl refl)
ram_banks-small (suc zero) h = (record { num_banks = 0; size_bytes = 0 }, refl, inl refl)
ram_banks-small (suc (suc zero)) h =
    (record { num_banks = 1; size_bytes = 8192 }, refl, inr (inl refl))
ram_banks-small (suc (suc (suc zero))) h =
    (record { num_banks = 4; size_bytes = 32768 }, refl, inr (inr refl))

-- The RAM that a cartridge comes with is cleared, and of a size that the controller addresses.
load_ram-size :
    (c : Cartridge)
    → IsCartridge c
    → (n : ℕ) × (load_ram new c ≡ some (replicate n 0)) × IsRamSize n
unfolding load_ram new
load_ram-size c v = elim v.ram [
  | inl plain ↦ (0, ground (arith, plain), inl refl)
  | inr ram ↦
      let (b, known, size) = ram_banks-small c.header.ram_size ram.2 in
      let typed : (c.header.cart_type == 2 || c.header.cart_type == 3) ≡ true =
        ground (arith, ram) in
      (b.size_bytes, simp (typed, known), size)
]

-- A controller that holds the cartridge's ROM and a given RAM.
abbrev loaded : Cartridge → List ℕ → Option String → Mbc1
loaded c ram path = record new {
  rom_mask = 0xff / 2 ^ max (7 - c.header.rom_size) 3;
  rom = take (32 * 1024 * 2 ^ c.header.rom_size) c.bytes;
  ram = ram;
  save_path = path;
}

loaded-IsValid :
    (c : Cartridge) (ram : List ℕ) (path : Option String)
    → IsCartridge c
    → IsRamSize (length ram)
    → IsValid c.header.rom_size (loaded c ram path)
unfolding new
loaded-IsValid c ram path v size =
    ground (
      arith,
      low_bits-pos c.header.rom_size,
      length-take (32 * 1024 * 2 ^ c.header.rom_size) c.bytes,
    )

load-steps :
    (c : Cartridge) (file : Option SaveFile) (ram : List ℕ)
    → IsCartridge c
    → load_ram new c ≡ some ram
    → load new c file ≡ (
        load_save (c.header.cart_type == 3) file ram >>= λ saved.
        some (loaded c saved.0 (elim saved.1 [ none ↦ none | some path ↦ some path ])))
unfolding load rom_banks new
load-steps c file ram v e =
    let fits : ltb c.header.rom_size 49 ≡ true = ground arith in
    let whole : (32 * 1024 * 2 ^ c.header.rom_size == length c.bytes) ≡ true = ground arith in
    let shift : ltb 7 c.header.rom_size ≡ false = ground arith in simp (fits, whole, shift, e)

-- There is no path for a save file, or nothing is read from it.
abbrev pub NothingSaved : Option SaveFile → Type 0
NothingSaved none = Unit
NothingSaved (some file) = file.found ≡ none

unsaved :
    (battery : Bool) (file : Option SaveFile) (ram : List ℕ)
    → NothingSaved file
    → Returns (λ (saved : List ℕ × Option String). saved.0 ≡ ram) (load_save battery file ram)
unfolding load_save read_save
unsaved battery none ram h = Returns-some refl
unsaved true (some file) ram h = simp h (Returns-some refl)
unsaved false (some file) ram h = Returns-some refl

-- Loading a cartridge that its header agrees with, of 2 MiB of ROM at most, where there is no path
-- for a save file or nothing is read from it, gives a valid controller with a cleared RAM, bank 1
-- selected, mode 0 and the RAM disabled.
pub load-IsValid :
    (c : Cartridge) (file : Option SaveFile)
    → IsCartridge c
    → NothingSaved file
    → Returns
        (λ m.
          IsValid c.header.rom_size m
          × (m.rom_bank ≡ 1)
          × (m.mode_flag ≡ false)
          × (m.ram_enabled ≡ false)
          × (m.ram ≡ replicate (length m.ram) 0))
        (load new c file)
unfolding new
load-IsValid c file v h =
    let (n, start, size) = load_ram-size c v in
    let ram : List ℕ = replicate n 0 in
    let len = length-replicate n 0 in
    rw (load-steps c file ram v start) (
      >>=-Returns (unsaved (c.header.cart_type == 3) file ram h) (λ saved same. Returns-some (
        loaded-IsValid c saved.0 _ v (rw same (ground (arith, size))),
        refl,
        refl,
        refl,
        rw same (ap (λ k. replicate k 0) (sym len)),
      )))

-- What a battery-backed controller saves, a later load of its cartridge, whose header agrees with
-- it, that finds those bytes puts back into the RAM, ready to be saved to the same file again, if
-- the RAM has the length that the cartridge's header gives it.
pub save-load_roundtrip :
    (c : Cartridge) (m : Mbc1) (path : String) (start : List ℕ)
    → IsCartridge c
    → c.header.cart_type ≡ 3
    → m.save_path ≡ some path
    → load_ram new c ≡ some start
    → length m.ram ≡ length start
    → (m' : Mbc1) × (save m ≡ some (path, m.ram))
      × (load new c (some (record { path = path; found = some m.ram })) ≡ some m')
      × (m'.ram ≡ m.ram)
      × (save m' ≡ save m)
unfolding load_save new save save_to
save-load_roundtrip c m path start v type saved cleared same =
    let battery : (c.header.cart_type == 3) ≡ true = ground arith in
    let fits : (length m.ram == length start) ≡ true = ground arith in
    (
      loaded c m.ram (some path),
      simp saved,
      load-steps c _ start v cleared ∙ simp (battery, fits),
      refl,
      simp saved,
    )
