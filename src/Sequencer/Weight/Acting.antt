-- ===== src/Sequencer/Weight/Acting.antt =====
-- What the subscriber to weights asks of the DE1.
