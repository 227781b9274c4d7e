-- ===== src/Request/Status.antt =====
-- `enum rqst_stat` of Request.h.
pub data RequestStatus : Type 0 where
  ok image_requested message_not_correct request_too_long empty_path empty_message : RequestStatus
  image_not_present icon_requested request_received head_cmd get_cmd : RequestStatus
  error_sending_message connection_closed : RequestStatus
