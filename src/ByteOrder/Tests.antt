-- ===== src/ByteOrder/Tests.antt =====
-- A word and a long word on a little-endian target, before any call.
use lz_lib.Base.{false, ◌≡◌, refl, true, arith}
use lz_lib.ByteOrder.{initial, swapping, hton32, hton64}
use lz_lib.ByteOrder.Laws.{memory_bytes, hton32-memory_bytes}

hton32-memory_bytes_example :
    let net = hton32 true initial 0x01020304 in
    (memory_bytes true net.0 ≡ memory_bytes false 0x01020304)
    × ((hton32 true net.1 net.0).0 ≡ 0x01020304)
    × ((hton64 true (hton64 true initial 7).1 (hton64 true initial 7).0).0 ≡ 7)
hton32-memory_bytes_example =
    hton32-memory_bytes true initial 0x01020304 7 tt (omega arith) (omega arith)

hton32_runs : hton32 true initial 0x01020304 ≡ (0x04030201, swapping)
unfolding hton32
hton32_runs = refl
