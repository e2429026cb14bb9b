-- ===== src/Gs.antt =====
-- The gs_usb adapter: the parts of src/rphand/backends/gs_usb_protocol.hpp and gs_usb_drain.hpp.
pub mod Wire
pub mod Buffer
pub mod Timing
pub mod Drain
pub mod WinUsb
mod Examples
