-- ===== src/Digest.antt =====
-- internal/digest/crc32c.go. `crc` is CRC32C of hash/crc32; its running form over `data` and then
-- the padding is `crc` of the two in a row.
use uiscsi.Common.{ℕ, ◌-◌, ◌%◌, List, ◌++◌, length, ◌==◌, if◌then◌else◌}
use uiscsi.Common.Bytes.{zeros}

unfoldable pub header_digest_of : (List ℕ → ℕ) → List ℕ → ℕ
header_digest_of crc bhs_and_ahs = crc bhs_and_ahs

unfoldable pub data_digest_of : (List ℕ → ℕ) → List ℕ → ℕ
data_digest_of crc bytes =
    let pad = (4 - length bytes % 4) % 4 in if pad == 0 then crc bytes else crc (bytes ++ zeros pad)
