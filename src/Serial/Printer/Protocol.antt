-- ===== src/Serial/Printer/Protocol.antt =====
-- What the printer makes of the bytes it is sent.
use zenith_gb.Base.{
  ℕ, ◌≡◌, ◌≢◌, refl, false, List, [], ◌∷◌, ◌++◌, Option, some, ◌==◌, ◌>>=◌, arith, Returns,
}
use zenith_gb.Serial.Printer

-- The bytes of a list, sent one after the other; the images printed are left out.
unfoldable pub send_all : List ℕ → Printer.Printer → Option Printer.Printer
send_all [] p = some p
send_all (b ∷ bs) p = Printer.send_byte p b >>= λ r. send_all bs r.0

receive-lost :
    (p : Printer.Printer) (first second : ℕ) (rest : List ℕ)
    → first ≢ 0x88
    → Printer.receive p Printer.recv_wait_magic (first ∷ second ∷ rest) ≡ Printer.wait p
unfolding Printer.receive
receive-lost p first second [] ne = let other : (first == 0x88) ≡ false = ground arith in simp other
receive-lost p first second (x ∷ xs) ne = refl

send-lost :
    (p : Printer.Printer) (first : ℕ) (rest : List ℕ) (byte : ℕ)
    → p.recv_state ≡ Printer.recv_wait_magic
    → p.recv_data ≡ first ∷ rest
    → first ≢ 0x88
    → Printer.send_byte p byte
      ≡ some (record p { recv_data = first ∷ rest ++ byte ∷ []; output = some 0 }, [])
unfolding Printer.send_byte
send-lost p first [] byte waits seen ne =
    simp (waits, seen)
      (simp (
        receive-lost
          (record p { recv_state = Printer.recv_wait_magic; recv_data = first ∷ byte ∷ [] }) first
          byte [] ne))
send-lost p first (x ∷ xs) byte waits seen ne =
    simp (waits, seen)
      (simp (
        receive-lost
          (record p {
            recv_state = Printer.recv_wait_magic;
            recv_data = first ∷ x ∷ xs ++ byte ∷ [];
          })
          first x (xs ++ byte ∷ []) ne))

-- A printer that waits for a packet and has received another byte than 0x88 first never accepts a
-- packet again: whatever bytes follow, it keeps waiting, its memory and status unchanged.
pub send_all-lost :
    (bytes : List ℕ) (p : Printer.Printer) (first : ℕ) (rest : List ℕ)
    → p.recv_state ≡ Printer.recv_wait_magic
    → p.recv_data ≡ first ∷ rest
    → first ≢ 0x88
    → Returns
        (λ p'.
          (p'.recv_state ≡ Printer.recv_wait_magic) × (p'.ram ≡ p.ram) × (p'.status ≡ p.status))
        (send_all bytes p)
unfolding send_all
send_all-lost [] p first rest waits seen ne = (p, refl, (waits, refl, refl))
send_all-lost (b ∷ bs) p first rest waits seen ne =
    let next : Printer.Printer = record p { recv_data = first ∷ rest ++ b ∷ []; output = some 0 } in
    simp (send-lost p first rest b waits seen ne)
      (send_all-lost bs next first (rest ++ b ∷ []) waits refl ne)
