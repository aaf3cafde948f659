-- ===== src/Frame.antt =====
-- pkg/gears/native/iso8583/io/frame.go: the bitmaps of an ISO 8583 message, its message type, and the
-- headers in front of it. Bytes are numbers below 256; `b & (0x80 >> bit)` is the test of one binary
-- digit, and the bits that `|` joins are apart.
pub mod Bitmap
pub mod Mti
pub mod Header
