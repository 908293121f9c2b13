-- ===== src/Serialize.antt =====
-- serialize/: the byte stream, and the classes that write themselves to it.
pub mod Bytes
pub mod Stream
pub mod Codec
pub mod Words
pub mod Text
pub mod Containers
pub mod Custom
pub mod RoundTrip
pub mod Operators
