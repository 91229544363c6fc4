-- ===== src/Fed/Types.antt =====
-- The packet types of lib/fed/packets/v3.0/packets.go. A type is a byte; one byte may stand for
-- two types, one in each direction.
use pggat.Base.{ℕ}

abbrev pub type_authentication : ℕ
type_authentication = b'R'

abbrev pub type_backend_key_data : ℕ
type_backend_key_data = b'K'

abbrev pub type_bind : ℕ
type_bind = b'B'

abbrev pub type_bind_complete : ℕ
type_bind_complete = b'2'

abbrev pub type_close : ℕ
type_close = b'C'

abbrev pub type_close_complete : ℕ
type_close_complete = b'3'

abbrev pub type_command_complete : ℕ
type_command_complete = b'C'

abbrev pub type_copy_both_response : ℕ
type_copy_both_response = b'W'

abbrev pub type_copy_data : ℕ
type_copy_data = b'd'

abbrev pub type_copy_done : ℕ
type_copy_done = b'c'

abbrev pub type_copy_fail : ℕ
type_copy_fail = b'f'

abbrev pub type_copy_in_response : ℕ
type_copy_in_response = b'G'

abbrev pub type_copy_out_response : ℕ
type_copy_out_response = b'H'

abbrev pub type_data_row : ℕ
type_data_row = b'D'

abbrev pub type_describe : ℕ
type_describe = b'D'

abbrev pub type_empty_query_response : ℕ
type_empty_query_response = b'I'

abbrev pub type_execute : ℕ
type_execute = b'E'

abbrev pub type_flush : ℕ
type_flush = b'H'

abbrev pub type_function_call : ℕ
type_function_call = b'F'

abbrev pub type_function_call_response : ℕ
type_function_call_response = b'V'

abbrev pub type_gss_response : ℕ
type_gss_response = b'p'

abbrev pub type_markiplier_response : ℕ
type_markiplier_response = b'E'

abbrev pub type_negotiate_protocol_version : ℕ
type_negotiate_protocol_version = b'v'

abbrev pub type_no_data : ℕ
type_no_data = b'n'

abbrev pub type_notice_response : ℕ
type_notice_response = b'N'

abbrev pub type_notification_response : ℕ
type_notification_response = b'A'

abbrev pub type_parameter_description : ℕ
type_parameter_description = b't'

abbrev pub type_parameter_status : ℕ
type_parameter_status = b'S'

abbrev pub type_parse : ℕ
type_parse = b'P'

abbrev pub type_parse_complete : ℕ
type_parse_complete = b'1'

abbrev pub type_password_message : ℕ
type_password_message = b'p'

abbrev pub type_portal_suspended : ℕ
type_portal_suspended = b's'

abbrev pub type_query : ℕ
type_query = b'Q'

abbrev pub type_ready_for_query : ℕ
type_ready_for_query = b'Z'

abbrev pub type_row_description : ℕ
type_row_description = b'T'

abbrev pub type_sasl_initial_response : ℕ
type_sasl_initial_response = b'p'

abbrev pub type_sasl_response : ℕ
type_sasl_response = b'p'

abbrev pub type_sync : ℕ
type_sync = b'S'

abbrev pub type_terminate : ℕ
type_terminate = b'X'
