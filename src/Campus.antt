-- ===== src/Campus.antt =====
-- backend/app/modules/campus_service
pub mod WorkOrder
