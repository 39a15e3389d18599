-- ===== src/Gui.antt =====
-- src/gui_win32.c and the GUI part of src/main.c, as built with `_WIN32`: the picture in the window,
-- the settings and their dialog, and the connect button with the thread that it starts.
pub mod Preview
pub mod Settings
pub mod Session
mod Tests
