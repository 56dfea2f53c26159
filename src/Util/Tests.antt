-- ===== src/Util/Tests.antt =====
-- Runs of the byte helpers at concrete words.
use zenith_gb.Base.{◌<◌, ◌≡◌, arith}
use zenith_gb.Util.{get_high, get_low, set_high, set_low}
use zenith_gb.Util.Bytes.{set_bytes}

set_bytes_example :
    (get_high (set_high 0xabcd 0x12) ≡ 0x12)
    × (get_low (set_high 0xabcd 0x12) ≡ get_low 0xabcd)
    × (get_low (set_low 0xabcd 0x12) ≡ 0x12)
    × (get_high (set_low 0xabcd 0x12) ≡ get_high 0xabcd)
    × (set_high 0xabcd 0x12 < 65536)
    × (set_low 0xabcd 0x12 < 65536)
set_bytes_example = set_bytes 0xabcd 0x12 (omega arith) (omega arith)
