-- ===== src/Text.antt =====
-- Scanning of byte strings: the whitespace set and token loops of src/command.cpp, and the two
-- formatted conversions of the standard streams that src/wal.cpp and src/disk_store.cpp use.
pub mod Span
pub mod Decimal
pub mod Integer
pub mod Address
use redon.Prelude.{ℕ, Bool, Bytes, ◌||◌, ◌==◌, not}
use Span.{span}

-- The explicit ASCII set; the classic locale of a stream skips the same bytes.
unfoldable pub is_space : ℕ → Bool
is_space c = c == b' ' || c == b'\t' || c == b'\r' || c == b'\n' || c == 0x0b || c == 0x0c

unfoldable pub skip_space : Bytes → Bytes
skip_space s = (span is_space s).1

-- The bytes up to the next whitespace, and what follows them.
unfoldable pub span_token : Bytes → Bytes × Bytes
span_token = span (λ c. not (is_space c))
