-- ===== src/Serial/Tests.antt =====
-- A transfer to a printer that waits for the byte after a packet, and a printer that is lost.
use zenith_gb.Base.{
  ℕ, ◌*◌, ◌≡◌, refl, true, false, List, [], ◌∷◌, none, some, arith, Returns, length, replicate,
  length-replicate,
}
use zenith_gb.Soc.Context.{ClockContext, set_interrupt, interrupt_bit_serial}
use zenith_gb.Serial.{Serial}
use zenith_gb.Serial.Transfer.{clocks, clocks-transfer}
use zenith_gb.Serial.Printer
use zenith_gb.Serial.Printer.Picture.{all_wide, print-total}
use zenith_gb.Serial.Printer.Protocol.{send_all, send_all-lost}

abbrev waiting : Printer.Printer
waiting = record {
  recv_state = Printer.recv_wait_keep_alive;
  recv_data = [];
  status = Printer.printer_ready;
  recv_data_length = 2;
  ram = 1 ∷ 2 ∷ [];
  compression = false;
  output = none;
}

abbrev answered : Printer.Printer
answered = record waiting { recv_state = Printer.recv_wait_status; output = some 0x81 }

abbrev port : Serial
port = record {
  sb = 0;
  shift_counter = 0;
  incoming = none;
  reg_enable = true;
  reg_select = true;
  printer = waiting;
}

abbrev idle : ClockContext
idle = record { interrupts = 0; events = 0 }

sent : Printer.send_byte waiting 0 ≡ some (answered, [])
unfolding Printer.send_byte Printer.receive
sent = refl

clocks-transfer_example :
    clocks 9 port idle
    ≡ some (
      record port {
        sb = 0x81;
        reg_enable = false;
        incoming = none;
        printer = (Printer.take answered).0;
      },
      set_interrupt idle interrupt_bit_serial,
    )
clocks-transfer_example =
    clocks-transfer port idle answered [] 0x81 refl refl refl sent refl (omega arith)

abbrev lost : Printer.Printer
lost = record waiting { recv_state = Printer.recv_wait_magic; recv_data = 0 ∷ [] }

send_all-lost_example :
    Returns
      (λ p'.
        (p'.recv_state ≡ Printer.recv_wait_magic) × (p'.ram ≡ lost.ram) × (p'.status ≡ lost.status))
      (send_all (0x88 ∷ 0x33 ∷ 0x01 ∷ []) lost)
send_all-lost_example = send_all-lost (0x88 ∷ 0x33 ∷ 0x01 ∷ []) lost 0 [] refl refl (omega arith)

two_rows : List ℕ
two_rows = replicate 640 0xaa

length-two_rows : length two_rows ≡ 320 * 2
unfolding two_rows
length-two_rows = length-replicate {A = ℕ} 640 0xaa

print-total_example :
    Returns
      (λ image. (length image ≡ 8 * 2) × (all_wide image ≡ true))
      (Printer.print (record waiting { ram = two_rows }) 0xe4)
print-total_example =
    print-total (record waiting { ram = two_rows }) 0xe4 2 length-two_rows (omega arith)
