-- ===== src/Ui/Form/Tests.antt =====
-- The form of internal/ui/hostform.go at a concrete host.
