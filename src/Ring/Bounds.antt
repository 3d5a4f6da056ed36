-- ===== src/Ring/Bounds.antt =====
-- ringlogger/ringlogger.go: the writes of a logger that was opened for writing.
use wireguard_windows.Base.Text.{Text}
