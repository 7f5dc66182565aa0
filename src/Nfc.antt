-- ===== src/Nfc.antt =====
-- The NFC link of the point of sale: APDU commands and logical messages cut into fragments
-- (protocol_v2.py), and the fragment loops of pos_desktop/service.py over pos_desktop/nfc.py.
pub mod Apdu
pub mod Fragments
pub mod Reading
pub mod Sending
mod Tests
