-- ===== src/Inventory/Movement/Cost.antt =====
-- The moving average that a receipt leaves as the cost price of its product.
