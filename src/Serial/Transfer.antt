-- ===== src/Serial/Transfer.antt =====
-- A transfer of the serial port: nine clocks.
use zenith_gb.Base.{
  ℕ, zero, suc, ◌+◌, ◌-◌, ◌*◌, ◌/◌, ◌%◌, ◌^◌, ◌≤◌, ◌<◌, ◌≡◌, refl, ap, sym, ◌∙◌, true, false, List,
  [], Option, none, some, u8, ◌<<<◌, ◌>>>◌, ◌==◌, ltb, ◌>>=◌, arith,
}
use zenith_gb.Base.Bits.{bit_and-mask, bit_or-fields}
use zenith_gb.Soc.Context.{ClockContext, set_interrupt, interrupt_bit_serial}
use zenith_gb.Serial.{Serial, finish_transmission, exchange, shift_bit, shift, clock}
use zenith_gb.Serial.Printer

-- `n` clocks; the images that a printer makes meanwhile are left out.
unfoldable pub clocks : ℕ → Serial → ClockContext → Option (Serial × ClockContext)
clocks zero s ctx = some (s, ctx)
clocks (suc n) s ctx = clock s ctx >>= λ r. clocks n r.serial r.ctx

abbrev next_sb : ℕ → ℕ → ℕ → ℕ
next_sb sb incoming bit = 2 * (sb % 128) + incoming / 2 ^ bit % 2

shift_bit-next :
    (sb incoming k : ℕ) → k ≤ 7 → shift_bit sb incoming k ≡ some (next_sb sb incoming (7 - k))
shift_bit-next sb incoming k le =
    let fits : ltb 7 k ≡ false = ground arith in
    let bit = bit_and-mask 1 (incoming >>> (7 - k)) in
    let top : u8 (sb <<< 1) ≡ sb % 128 * 2 ^ 1 = omega arith in
    let join = bit_or-fields 1 (sb % 128) (incoming / 2 ^ (7 - k) % 2) (omega arith) in
    simp (fits, bit, top, join) (ground arith)

clock-shift :
    (s : Serial) (ctx : ClockContext) (incoming : ℕ)
    → s.reg_enable ≡ true
    → s.reg_select ≡ true
    → 0 < s.shift_counter
    → s.shift_counter ≤ 7
    → s.incoming ≡ some incoming
    → clock s ctx
      ≡ some (record {
        serial = record s {
          sb = next_sb s.sb incoming (7 - s.shift_counter);
          shift_counter = s.shift_counter + 1;
        };
        ctx = ctx;
        images = [];
      })
unfolding clock exchange shift
clock-shift s ctx incoming on select pos le e =
    let early : (s.shift_counter == 8) ≡ false = ground arith in
    let later : (s.shift_counter == 0) ≡ false = ground arith in
    simp (on, select, early, later, e, shift_bit-next s.sb incoming s.shift_counter le)

-- After the first of `k` further shifts.
abbrev shifted : ℕ → ℕ → ℕ → ℕ
shifted sb incoming zero = sb
shifted sb incoming (suc k) = next_sb (shifted sb incoming k) incoming (7 - k)

-- The eight shifts leave the incoming byte.
shifted-all : (sb incoming : ℕ) → incoming < 256 → shifted sb incoming 8 ≡ incoming
shifted-all sb incoming lt = omega arith

-- The port after `k` shifts of the byte `answer`.
abbrev shifting : Serial → Printer.Printer → (answer k : ℕ) → Serial
shifting s printer answer k = record s {
  sb = shifted s.sb answer k;
  shift_counter = k;
  incoming = some answer;
  printer = printer;
}

clock-first :
    (s : Serial) (ctx : ClockContext) (printer : Printer.Printer) (images : List Printer.Image)
    (answer : ℕ)
    → s.reg_enable ≡ true
    → s.reg_select ≡ true
    → s.shift_counter ≡ 0
    → Printer.send_byte s.printer s.sb ≡ some (printer, images)
    → printer.output ≡ some answer
    → clock s ctx
      ≡ some (record {
        serial = shifting s (Printer.take printer).0 answer 1;
        ctx = ctx;
        images = images;
      })
unfolding clock exchange shift Printer.take
clock-first s ctx printer images answer on select start sent out =
    simp (on, select, start, sent, out)
      (ap
        (λ m. m >>= λ sb. some (record {
          serial = record s {
            sb = sb;
            shift_counter = 1;
            incoming = some answer;
            reg_enable = true;
            reg_select = true;
            printer = (Printer.take printer).0;
          };
          ctx = ctx;
          images = images;
        }))
        (shift_bit-next s.sb answer 0 (omega arith)))

clocks-shifting :
    (j k : ℕ) (s : Serial) (ctx : ClockContext) (printer : Printer.Printer) (answer : ℕ)
    → s.reg_enable ≡ true
    → s.reg_select ≡ true
    → 0 < k
    → k + j ≡ 8
    → clocks (suc j) (shifting s printer answer k) ctx
      ≡ some (
        finish_transmission (shifting s printer answer 8),
        set_interrupt ctx interrupt_bit_serial,
      )
unfolding clocks clock
clocks-shifting zero k s ctx printer answer on select pos e =
    let last : k ≡ 8 = omega arith in simp (on, select, last)
clocks-shifting (suc j) k s ctx printer answer on select pos e =
    let step =
      clock-shift (shifting s printer answer k) ctx answer on select pos (omega arith) refl in
    let next : k + 1 ≡ suc k = omega arith in
    simp (step, next)
      (clocks-shifting j (suc k) s ctx printer answer on select (omega arith) (omega arith))

-- A transfer that the port starts, with its own clock, sends `sb` to the printer at once. If the
-- printer takes it without a panic and answers a byte, nine clocks later the byte that the printer
-- answers is in `sb`, the transfer is no longer enabled, the port is ready for another one, and the
-- serial interrupt has been requested.
pub clocks-transfer :
    (s : Serial) (ctx : ClockContext) (printer : Printer.Printer) (images : List Printer.Image)
    (answer : ℕ)
    → s.reg_enable ≡ true
    → s.reg_select ≡ true
    → s.shift_counter ≡ 0
    → Printer.send_byte s.printer s.sb ≡ some (printer, images)
    → printer.output ≡ some answer
    → answer < 256
    → clocks 9 s ctx
      ≡ some (
        record s {
          sb = answer;
          reg_enable = false;
          incoming = none;
          printer = (Printer.take printer).0;
        },
        set_interrupt ctx interrupt_bit_serial,
      )
unfolding clocks finish_transmission
clocks-transfer s ctx printer images answer on select start sent out lt =
    let first = clock-first s ctx printer images answer on select start sent out in
    let taken = (Printer.take printer).0 in
    let rest = clocks-shifting 7 1 s ctx taken answer on select (omega arith) refl in
    simp first (
      rest
      ∙ ap
          (λ v. some (
            record s {
              sb = v;
              shift_counter = 0;
              incoming = none;
              reg_enable = false;
              printer = taken;
            },
            set_interrupt ctx interrupt_bit_serial,
          ))
          (shifted-all s.sb answer lt)
      ∙ ap
          (λ k. some (
            record s {
              sb = answer;
              shift_counter = k;
              incoming = none;
              reg_enable = false;
              printer = taken;
            },
            set_interrupt ctx interrupt_bit_serial,
          ))
          (sym start))
