-- ===== src/Serial/Printer.antt =====
-- src/serial/printer.rs: the protocol of the printer, and the picture of its RAM.
--
-- A picture is its rows of colors, 0 to 3. The bitmap file it is written to, its name and its
-- palette are not modelled.
pub mod Picture
pub mod Protocol
use zenith_gb.Base.{
  ℕ, zero, suc, ◌+◌, ◌-◌, ◌*◌, ◌/◌, ◌%◌, ◌^◌, Bool, true, false, List, [], ◌∷◌, ◌++◌, Option, none,
  some, bit_and, bit_or, ◌<<<◌, ◌>>>◌, ◌==◌, ◌!=◌, ltb, length, get_elem?, ◌>>=◌, if◌then◌else◌,
}
use zenith_gb.Util.{value}

pub data PrinterRecvState : Type 0 where
  recv_wait_magic : PrinterRecvState
  recv_wait_command : PrinterRecvState
  recv_wait_compression : PrinterRecvState
  recv_wait_length : PrinterRecvState
  recv_wait_data : PrinterRecvState
  recv_wait_checksum : PrinterRecvState
  recv_wait_keep_alive : PrinterRecvState
  recv_wait_status : PrinterRecvState

pub data PrinterStatus : Type 0 where
  printer_idle printer_ready printer_printing printer_done : PrinterStatus

-- `self.status as u8`
abbrev pub status_code : PrinterStatus → ℕ
status_code printer_idle = 0
status_code printer_ready = 0x8
status_code printer_printing = 0x6
status_code printer_done = 0x4

pub record Printer : Type 0 where
  pub recv_state : PrinterRecvState
  pub recv_data : List ℕ
  pub status : PrinterStatus
  pub recv_data_length : ℕ
  pub ram : List ℕ
  pub compression : Bool
  pub output : Option ℕ

pub new : Printer
new = record {
  recv_state = recv_wait_magic;
  recv_data = [];
  status = printer_idle;
  recv_data_length = 0;
  ram = [];
  compression = false;
  output = none;
}

pub reset : Printer → Printer
reset p = record p {
  ram = [];
  recv_data = [];
  recv_state = recv_wait_magic;
  status = printer_idle;
  recv_data_length = 0;
  output = none;
}

abbrev pub Image : Type 0
Image = List (List ℕ)

-- The palette's color of a pixel of a tile's line.
pub pixel : (palette tile_lsb tile_msb bit_idx : ℕ) → ℕ
pixel palette tile_lsb tile_msb bit_idx =
    let hb = bit_and (tile_msb >>> bit_idx) 0x1 in
    let lb = bit_and (tile_lsb >>> bit_idx) 0x1 in
    bit_and (palette >>> (bit_or lb (hb <<< 1) * 2)) 0x3

-- `(0..8).rev()`: the bits below `bits`, the highest first.
pub tile_line : (palette tile_lsb tile_msb bits : ℕ) → List ℕ
tile_line palette tile_lsb tile_msb zero = []
tile_line palette tile_lsb tile_msb (suc bit_idx) =
    pixel palette tile_lsb tile_msb bit_idx ∷ tile_line palette tile_lsb tile_msb bit_idx

-- Line `y` of the tile at `x_coord`.
pub tile_pixels : List ℕ → (palette y x_coord : ℕ) → Option (List ℕ)
tile_pixels ram palette y x_coord = do
  let tile_index = (x_coord + 20 * (y / 8)) % 360
  let tile_base = tile_index * 16 + 2 * (y % 8)
  tile_lsb ← get_elem? ram tile_base
  tile_msb ← get_elem? ram (tile_base + 1)
  some (tile_line palette tile_lsb tile_msb 8)

-- The `while` on `x`: `tiles` tiles of a row are left.
pub row : List ℕ → (palette y tiles : ℕ) → Option (List ℕ)
row ram palette y zero = some []
row ram palette y (suc tiles) = do
  rest ← row ram palette y tiles
  line ← tile_pixels ram palette y tiles
  some (rest ++ line)

-- The first `height` rows.
pub rows : List ℕ → (palette height : ℕ) → Option Image
rows ram palette zero = some []
rows ram palette (suc y) = do
  above ← rows ram palette y
  line ← row ram palette y 20
  some (above ++ line ∷ [])

pub print : Printer → (palette : ℕ) → Option Image
print p palette = rows p.ram palette (length p.ram / 40)

-- A step of the protocol: the printer, its answer, and the images printed.
pub record Answer : Type 0 where
  pub printer : Printer
  pub byte : ℕ
  pub images : List Image

-- The next state, with the bytes received so far forgotten.
abbrev pub advance : PrinterRecvState → Printer → ℕ → Option Answer
advance state p byte =
    some (record {
      printer = record p { recv_state = state; recv_data = [] };
      byte = byte;
      images = [];
    })

-- `_ => 0x0`: wait for more bytes.
abbrev pub wait : Printer → Option Answer
wait p = some (record { printer = p; byte = 0; images = [] })

abbrev pub is_done : PrinterStatus → Bool
is_done printer_done = true
is_done _ = false

-- The start of a packet. A printer that is done starts over; a `reset` leaves it idle.
pub receive_magic : Printer → Printer
receive_magic p = record p' {
  status = elim p'.status [
    | printer_idle ↦ printer_idle
    | printer_ready ↦ printer_ready
    | printer_printing ↦ printer_done
    | printer_done ↦ printer_done
  ];
}
  where
    p' : Printer
    p' = if is_done p.status then reset p else p

-- An unknown command is a panic.
pub receive_command : Printer → ℕ → Option Answer
receive_command p command =
    if command == 0xf
    then advance recv_wait_compression p 0
    else if command == 0x1
    then advance recv_wait_compression (record p { ram = [] }) 0
    else if command == 0x2
    then advance recv_wait_compression (record p { status = printer_printing }) 0
    else if command == 0x4
    then advance recv_wait_compression (record p { status = printer_ready }) 0
    else none

-- The data of a packet, once it is whole. Data of another length than 4 for a print is a panic.
pub receive_data : Printer → PrinterStatus → List ℕ → Option Answer
receive_data p printer_printing (num_sheets ∷ margins ∷ palette ∷ exposure ∷ []) = do
  image ← print p palette
  some (record {
    printer = record p { recv_state = recv_wait_checksum; recv_data = [] };
    byte = 0;
    images = image ∷ [];
  })
receive_data p printer_printing _ = none
receive_data p printer_ready buf = advance recv_wait_checksum (record p { ram = p.ram ++ buf }) 0
receive_data p printer_idle buf = advance recv_wait_checksum p 0
receive_data p printer_done buf = advance recv_wait_checksum p 0

-- The `match` on the state and the bytes received in it, the new one included.
unfoldable pub receive : Printer → PrinterRecvState → List ℕ → Option Answer
receive p recv_wait_magic (a ∷ b ∷ []) =
    if a == 0x88
    then (if b == 0x33 then advance recv_wait_command (receive_magic p) 0 else wait p)
    else wait p
receive p recv_wait_command (command ∷ []) = receive_command p command
receive p recv_wait_command _ = none
receive p recv_wait_compression (use_compression ∷ []) =
    advance recv_wait_length (record p { compression = use_compression != 0 }) 0
receive p recv_wait_length (lsb ∷ msb ∷ []) =
    let n = value msb lsb in
    advance (if n == 0 then recv_wait_checksum else recv_wait_data)
      (record p { recv_data_length = n }) 0
receive p recv_wait_data buf =
    if ltb (length buf) p.recv_data_length then wait p else receive_data p p.status buf
receive p recv_wait_checksum (lsb ∷ msb ∷ []) = advance recv_wait_keep_alive p 0
receive p recv_wait_keep_alive (b ∷ []) = if b == 0 then advance recv_wait_status p 0x81 else none
receive p recv_wait_keep_alive _ = none
receive p recv_wait_status buf = advance recv_wait_magic p (status_code p.status)
receive p recv_wait_magic _ = wait p
receive p recv_wait_compression _ = wait p
receive p recv_wait_length _ = wait p
receive p recv_wait_checksum _ = wait p

unfoldable pub send_byte : Printer → ℕ → Option (Printer × List Image)
send_byte p byte =
    receive (record p { recv_data = p.recv_data ++ byte ∷ [] }) p.recv_state
      (p.recv_data ++ byte ∷ [])
    >>= λ r. some (record r.printer { output = some r.byte }, r.images)

unfoldable pub take : Printer → Printer × Option ℕ
take p = (record p { output = none }, p.output)
