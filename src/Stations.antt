-- ===== src/Stations.antt =====
-- The handlers of a station's own messages, packages/core/src/ocpp/handlers: bootNotification,
-- heartbeat, statusNotification, authorize, firmwareStatusNotification and
-- diagnosticsStatusNotification.
pub mod Authorize
pub mod Boot
pub mod Diagnostics
pub mod Firmware
pub mod Status
