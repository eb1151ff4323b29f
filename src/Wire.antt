-- ===== src/Wire.antt =====
-- Byte-level input and output, shared by every codec of the program: the standard library's
-- `encoding/binary`, `bytes.Buffer`, `io.ReadFull` and `hash/crc32` as far as the code uses them.
mod Monad
mod Endian
mod Ints
mod Failure
mod Crc
mod Bits
mod Keys
unfoldable pub use Monad.*
unfoldable pub use Endian.*
unfoldable pub use Ints.*
pub use Failure.*
pub use Bits.*
unfoldable pub use Keys.*
unfoldable pub use Crc.*
