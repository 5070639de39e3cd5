-- ===== src/Specs/NotificationChannel.antt =====
-- The spec of a NotificationChannel, api/resources/v1alpha1/zz_generated_notificationchannel_types.go.
pub mod ConfigSpec
pub mod ObjectSpec
