-- ===== src/Apu/Channel3/Bytes.antt =====
-- A list of bytes of a fixed length, and what reads and writes of it keep.
use zenith_gb.Base.{
  ℕ, zero, suc, ◌<◌, ◌≡◌, ◌∙◌, refl, Bool, true, ◌&&◌, List, [], ◌∷◌, some, ltb, get_elem?, set,
  set?, length, arith, Returns, get_elem?-total, set?-eq-set, length-set,
}
use zenith_gb.Apu.Channel3.{copy_byte}

abbrev pub are_bytes : List ℕ → Bool
are_bytes [] = true
are_bytes (b ∷ bs) = ltb b 256 && are_bytes bs

pub record IsRam (size : ℕ) (ram : List ℕ) : Type 0 where
  pub size_eq : length ram ≡ size
  pub bytes : are_bytes ram ≡ true

are_bytes-get : (ram : List ℕ) (i b : ℕ) → are_bytes ram ≡ true → get_elem? ram i ≡ some b → b < 256
are_bytes-get [] i b h found = absurd (ground arith)
are_bytes-get (x ∷ xs) zero b h found = ground arith
are_bytes-get (x ∷ xs) (suc i) b h found = are_bytes-get xs i b (ground arith) found

are_bytes-set :
    (ram : List ℕ) (i b : ℕ) → are_bytes ram ≡ true → b < 256 → are_bytes (set ram i b) ≡ true
are_bytes-set [] i b h lt = refl
are_bytes-set (x ∷ xs) zero b h lt = ground arith
are_bytes-set (x ∷ xs) (suc i) b h lt = ground (arith, are_bytes-set xs i b)

pub get-byte :
    (size i : ℕ) (ram : List ℕ)
    → IsRam size ram
    → i < size
    → Returns (λ b. b < 256) (get_elem? ram i)
get-byte size i ram v lt =
    let (b, found) = get_elem?-total ram i (ground (arith, v)) in
    (b, found, are_bytes-get ram i b v.bytes found)

pub set-IsRam :
    (size i b : ℕ) (ram : List ℕ)
    → IsRam size ram
    → i < size
    → b < 256
    → Returns (IsRam size) (set? ram i b)
set-IsRam size i b ram v lt byte = (
  set ram i b,
  set?-eq-set ram i b (ground (arith, v)),
  record { size_eq = length-set ram i b ∙ v.size_eq; bytes = are_bytes-set ram i b v.bytes byte },
)

pub copy_byte-IsRam :
    (size i from : ℕ) (ram : List ℕ)
    → IsRam size ram
    → i < size
    → from < size
    → Returns (IsRam size) (copy_byte i from ram)
copy_byte-IsRam size i from ram v lt lt' =
    let (b, found, byte) = get-byte size from ram v lt' in
    let (ram', stored, v') = set-IsRam size i b ram v lt byte in simp found (ram', stored, v')
