-- ===== src/GoText.antt =====
-- The parts of Go's `strings`, `unicode` and `path` packages that the classifier calls.
-- A Go string is the list of its UTF-8 decoding units: a code point, or 0x110000 + b for a byte b
-- that belongs to no encoding (where the decoder returns RuneError with size 1).
mod Search
mod Cases
mod Paths
mod Bytes
mod Maps
mod Numbers
mod Sorting
unfoldable pub use Search.*
unfoldable pub use Cases.*
unfoldable pub use Paths.*
unfoldable pub use Bytes.*
unfoldable pub use Maps.*
unfoldable pub use Numbers.*
unfoldable pub use Sorting.*
