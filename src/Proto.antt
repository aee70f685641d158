-- ===== src/Proto.antt =====
-- The wire protocol: lab2/include/common and lab2/src/common/strings.c.
mod Types
mod Requests
mod Replys
mod Sizes
mod Text
unfoldable pub use Types.*
unfoldable pub use Requests.*
unfoldable pub use Replys.*
unfoldable pub use Sizes.*
unfoldable pub use Text.*
