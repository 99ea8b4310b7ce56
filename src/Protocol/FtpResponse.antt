-- ===== src/Protocol/FtpResponse.antt =====
-- protocol/ftp/response/src/ftp_response.hpp
pub mod Lines
use in_memory_object_storage.Common.{ℕ, ◌++◌}
use in_memory_object_storage.Common.Text.{Bytes, codes}
use in_memory_object_storage.Common.Decimal.{to_string}

pub data FtpReplyCode : Type 0 where
  command_ok syntax_error_unrecognized_command syntax_error_parameters
        command_not_implemented_superflous command_not_implemented commands_bad_sequence
        command_not_implemented_for_parameter reply_restart_marker reply_system_status
        directory_status file_status help_message name_system_type service_ready_in_minutes
        service_ready_for_new_user service_closing_control_connection service_not_available
        data_connection_open_transfer_starting data_connection_open_no_transfer
        error_opening_data_connection closing_data_connection transfer_aborted entering_passive_mode
        user_logged_in not_logged_in user_name_ok need_account_for_login
        need_account_for_storing_files file_status_ok_opening_data_connection file_action_completed
        pathname_created file_action_needs_further_info file_action_not_taken action_not_taken
        action_aborted_local_error action_aborted_page_type_unknown
        action_not_taken_insufficient_storage_space file_action_aborted
        action_not_taken_filename_not_allowed :
      FtpReplyCode

-- `static_cast<int>(code)`
unfoldable pub code_number : FtpReplyCode → ℕ
code_number command_ok = 200
code_number syntax_error_unrecognized_command = 500
code_number syntax_error_parameters = 501
code_number command_not_implemented_superflous = 202
code_number command_not_implemented = 502
code_number commands_bad_sequence = 503
code_number command_not_implemented_for_parameter = 504
code_number reply_restart_marker = 110
code_number reply_system_status = 211
code_number directory_status = 212
code_number file_status = 213
code_number help_message = 214
code_number name_system_type = 215
code_number service_ready_in_minutes = 120
code_number service_ready_for_new_user = 220
code_number service_closing_control_connection = 221
code_number service_not_available = 421
code_number data_connection_open_transfer_starting = 125
code_number data_connection_open_no_transfer = 225
code_number error_opening_data_connection = 425
code_number closing_data_connection = 226
code_number transfer_aborted = 426
code_number entering_passive_mode = 227
code_number user_logged_in = 230
code_number not_logged_in = 530
code_number user_name_ok = 331
code_number need_account_for_login = 332
code_number need_account_for_storing_files = 532
code_number file_status_ok_opening_data_connection = 150
code_number file_action_completed = 250
code_number pathname_created = 257
code_number file_action_needs_further_info = 350
code_number file_action_not_taken = 450
code_number action_not_taken = 550
code_number action_aborted_local_error = 451
code_number action_aborted_page_type_unknown = 551
code_number action_not_taken_insufficient_storage_space = 452
code_number file_action_aborted = 552
code_number action_not_taken_filename_not_allowed = 553

pub record FtpResponse : Type 0 where
  pub code : FtpReplyCode
  pub text : Bytes

-- The two constructors.
abbrev pub with_text : FtpReplyCode → Bytes → FtpResponse
with_text code text = record { code = code; text = text }

abbrev pub without_text : FtpReplyCode → FtpResponse
without_text code = with_text code (codes "")

-- operator std::string
unfoldable pub serialize : FtpResponse → Bytes
serialize r = to_string (code_number r.code) ++ codes " " ++ r.text ++ codes "\r\n"
