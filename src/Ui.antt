-- ===== src/Ui.antt =====
-- internal/ui: what the screens do to the store and to connections, without their widgets.
pub mod Form
pub mod Connecting
pub mod Preparing
pub mod Hosts
pub mod Tree
pub mod Browser
pub mod Actions
pub mod Sessions
pub mod Main
pub mod Browsing
pub mod Editing
pub mod Format
mod Tests
