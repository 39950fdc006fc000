-- ===== src/Hid.antt =====
-- The keyboard gadget of the KVM, devices/glkvm/.
pub mod Gadget
pub mod Attributes
pub mod Opening
pub mod Keyboard
pub mod Keys
pub mod Typing
pub mod Switching
mod Tests
