-- ===== src/ErrorCode.antt =====
-- error_code.go: the error codes, in the order of the source's `iota` block.
use go_atomos.Common.{ℕ}

pub data ErrorCode : Type 0 where
  ok err_framework_internal_error err_framework_recover_from_panic : ErrorCode
  err_framework_incorrect_usage err_cosmos_process_has_not_initialized : ErrorCode
  err_cosmos_process_has_been_started err_cosmos_process_on_startup_panic : ErrorCode
  err_cosmos_process_on_shutdown_panic err_cosmos_process_cannot_stop_prepare_state : ErrorCode
  err_cosmos_process_cannot_stop_startup_state err_cosmos_process_cannot_stop_shutdown_state :
      ErrorCode
  err_cosmos_process_cannot_stop_off_state err_cosmos_process_invalid_state : ErrorCode
  err_main_load_cert_failed err_main_element_not_found err_main_start_running_panic : ErrorCode
  err_main_cannot_kill err_main_cannot_send_wormhole err_main_cannot_message : ErrorCode
  err_main_runnable_not_found err_runnable_config_not_found err_runnable_interface_invalid :
      ErrorCode
  err_runnable_implement_invalid err_runnable_script_not_found : ErrorCode
  err_cosmos_remote_element_not_found err_cosmos_remote_listen_failed : ErrorCode
  err_cosmos_remote_connect_failed err_cosmos_remote_request_invalid : ErrorCode
  err_cosmos_remote_response_failed err_cosmos_remote_response_invalid : ErrorCode
  err_cosmos_remote_server_invalid_args err_cosmos_remote_server_invalid_first_sync_call : ErrorCode
  err_cosmos_remote_info_invalid err_cosmos_remote_cannot_message : ErrorCode
  err_cosmos_remote_cannot_send_wormhole err_cosmos_remote_cannot_kill : ErrorCode
  err_element_remote_cannot_kill err_element_remote_cannot_send_wormhole : ErrorCode
  err_cosmos_config_invalid err_cosmos_etcd_connect_failed : ErrorCode
  err_cosmos_etcd_cluster_tls_invalid err_cosmos_etcd_cluster_versions_check_failed : ErrorCode
  err_cosmos_etcd_cluster_version_lock_failed err_cosmos_etcd_grpc_server_failed : ErrorCode
  err_cosmos_etcd_keepalive_failed err_cosmos_etcd_invalid_key err_cosmos_etcd_update_failed :
      ErrorCode
  err_cosmos_etcd_get_failed err_cosmos_etcd_put_failed err_cosmos_etcd_delete_failed : ErrorCode
  err_cosmos_config_cert_invalid err_cosmos_is_closed err_app_env_get_executable_failed : ErrorCode
  err_app_env_launched_failed err_app_env_run_path_invalid : ErrorCode
  err_app_env_run_path_pid_file_invalid err_app_env_run_path_pid_is_running : ErrorCode
  err_app_env_run_path_write_pid_file_failed err_app_env_run_path_remove_pid_failed : ErrorCode
  err_app_env_logging_file_open_failed err_app_env_logging_path_invalid : ErrorCode
  err_app_env_logging_file_write_failed err_app_env_logging_file_close_failed : ErrorCode
  err_cosmos_global_no_etcd_failed err_cosmos_global_etcd_connect_failed : ErrorCode
  err_app_unix_domain_socket_file_invalid err_app_unix_domain_socket_listen_failed : ErrorCode
  err_app_unix_domain_socket_dial_failed err_app_unix_domain_socket_conn_write_failed : ErrorCode
  err_app_logging_path_invalid err_app_logging_file_open_failed err_atomos_invalid_arguments :
      ErrorCode
  err_atomos_is_stopping err_atomos_is_not_running err_atomos_task_invalid_fn : ErrorCode
  err_atomos_task_not_exists err_atomos_task_add_crontab_failed : ErrorCode
  err_atomos_task_remove_crontab_failed err_atomos_not_support_wormhole : ErrorCode
  err_atomos_push_timeout_handling err_atomos_push_timeout_reject : ErrorCode
  err_atomos_task_cannot_cancel_cancelled_task err_atomos_task_cannot_cancel_running_task :
      ErrorCode
  err_atomos_task_cannot_cancel_done_task err_id_first_sync_call_deadlock err_element_loaded :
      ErrorCode
  err_element_message_handler_not_exists err_element_message_decoder_not_exists : ErrorCode
  err_element_message_reply_type err_element_cannot_kill err_element_no_from_id : ErrorCode
  err_element_not_implemented err_element_from_id_invalid err_element_to_id_invalid : ErrorCode
  err_element_message_arg_type err_atom_message_handler_not_exists : ErrorCode
  err_atom_message_decoder_not_exists err_atom_kill_element_no_implement : ErrorCode
  err_atom_kill_element_not_implement_auto_data_persistence err_atom_from_id_invalid : ErrorCode
  err_atom_to_id_invalid err_atom_data_not_found err_atom_not_exists err_atom_is_running : ErrorCode
  err_atom_is_stopping err_atom_no_from_id err_atom_not_implemented : ErrorCode
  err_atom_message_atom_type err_atom_message_arg_type err_atom_message_reply_type : ErrorCode
  err_atom_spawning_an_existed_atom err_atom_instance_mismatch err_util_os_stat_error : ErrorCode
  err_util_read_directory_failed err_util_not_supported_os err_util_path_should_be_directory :
      ErrorCode
  err_util_directory_not_exist err_util_get_user_group_i_ds_failed : ErrorCode
  err_util_users_groups_have_not_owned_directory err_util_file_mode_perm_not_match : ErrorCode
  err_util_file_make_directory_failed err_util_file_change_owner_and_mode_failed : ErrorCode
  err_util_file_confirm_owner_and_mode_failed err_util_create_file_failed : ErrorCode
  err_util_file_ensure_directory_failed err_util_file_file_exist_failed : ErrorCode
  err_util_file_get_directory_size_failed err_util_string_hash_sha256_failed : ErrorCode
  err_cosmos_node_draining err_async_callback_cancelled_by_halt : ErrorCode

-- The value that `iota` gives each code.
unfoldable pub to_ℕ : ErrorCode → ℕ
to_ℕ ok = 0
to_ℕ err_framework_internal_error = 1
to_ℕ err_framework_recover_from_panic = 2
to_ℕ err_framework_incorrect_usage = 3
to_ℕ err_cosmos_process_has_not_initialized = 4
to_ℕ err_cosmos_process_has_been_started = 5
to_ℕ err_cosmos_process_on_startup_panic = 6
to_ℕ err_cosmos_process_on_shutdown_panic = 7
to_ℕ err_cosmos_process_cannot_stop_prepare_state = 8
to_ℕ err_cosmos_process_cannot_stop_startup_state = 9
to_ℕ err_cosmos_process_cannot_stop_shutdown_state = 10
to_ℕ err_cosmos_process_cannot_stop_off_state = 11
to_ℕ err_cosmos_process_invalid_state = 12
to_ℕ err_main_load_cert_failed = 13
to_ℕ err_main_element_not_found = 14
to_ℕ err_main_start_running_panic = 15
to_ℕ err_main_cannot_kill = 16
to_ℕ err_main_cannot_send_wormhole = 17
to_ℕ err_main_cannot_message = 18
to_ℕ err_main_runnable_not_found = 19
to_ℕ err_runnable_config_not_found = 20
to_ℕ err_runnable_interface_invalid = 21
to_ℕ err_runnable_implement_invalid = 22
to_ℕ err_runnable_script_not_found = 23
to_ℕ err_cosmos_remote_element_not_found = 24
to_ℕ err_cosmos_remote_listen_failed = 25
to_ℕ err_cosmos_remote_connect_failed = 26
to_ℕ err_cosmos_remote_request_invalid = 27
to_ℕ err_cosmos_remote_response_failed = 28
to_ℕ err_cosmos_remote_response_invalid = 29
to_ℕ err_cosmos_remote_server_invalid_args = 30
to_ℕ err_cosmos_remote_server_invalid_first_sync_call = 31
to_ℕ err_cosmos_remote_info_invalid = 32
to_ℕ err_cosmos_remote_cannot_message = 33
to_ℕ err_cosmos_remote_cannot_send_wormhole = 34
to_ℕ err_cosmos_remote_cannot_kill = 35
to_ℕ err_element_remote_cannot_kill = 36
to_ℕ err_element_remote_cannot_send_wormhole = 37
to_ℕ err_cosmos_config_invalid = 38
to_ℕ err_cosmos_etcd_connect_failed = 39
to_ℕ err_cosmos_etcd_cluster_tls_invalid = 40
to_ℕ err_cosmos_etcd_cluster_versions_check_failed = 41
to_ℕ err_cosmos_etcd_cluster_version_lock_failed = 42
to_ℕ err_cosmos_etcd_grpc_server_failed = 43
to_ℕ err_cosmos_etcd_keepalive_failed = 44
to_ℕ err_cosmos_etcd_invalid_key = 45
to_ℕ err_cosmos_etcd_update_failed = 46
to_ℕ err_cosmos_etcd_get_failed = 47
to_ℕ err_cosmos_etcd_put_failed = 48
to_ℕ err_cosmos_etcd_delete_failed = 49
to_ℕ err_cosmos_config_cert_invalid = 50
to_ℕ err_cosmos_is_closed = 51
to_ℕ err_app_env_get_executable_failed = 52
to_ℕ err_app_env_launched_failed = 53
to_ℕ err_app_env_run_path_invalid = 54
to_ℕ err_app_env_run_path_pid_file_invalid = 55
to_ℕ err_app_env_run_path_pid_is_running = 56
to_ℕ err_app_env_run_path_write_pid_file_failed = 57
to_ℕ err_app_env_run_path_remove_pid_failed = 58
to_ℕ err_app_env_logging_file_open_failed = 59
to_ℕ err_app_env_logging_path_invalid = 60
to_ℕ err_app_env_logging_file_write_failed = 61
to_ℕ err_app_env_logging_file_close_failed = 62
to_ℕ err_cosmos_global_no_etcd_failed = 63
to_ℕ err_cosmos_global_etcd_connect_failed = 64
to_ℕ err_app_unix_domain_socket_file_invalid = 65
to_ℕ err_app_unix_domain_socket_listen_failed = 66
to_ℕ err_app_unix_domain_socket_dial_failed = 67
to_ℕ err_app_unix_domain_socket_conn_write_failed = 68
to_ℕ err_app_logging_path_invalid = 69
to_ℕ err_app_logging_file_open_failed = 70
to_ℕ err_atomos_invalid_arguments = 71
to_ℕ err_atomos_is_stopping = 72
to_ℕ err_atomos_is_not_running = 73
to_ℕ err_atomos_task_invalid_fn = 74
to_ℕ err_atomos_task_not_exists = 75
to_ℕ err_atomos_task_add_crontab_failed = 76
to_ℕ err_atomos_task_remove_crontab_failed = 77
to_ℕ err_atomos_not_support_wormhole = 78
to_ℕ err_atomos_push_timeout_handling = 79
to_ℕ err_atomos_push_timeout_reject = 80
to_ℕ err_atomos_task_cannot_cancel_cancelled_task = 81
to_ℕ err_atomos_task_cannot_cancel_running_task = 82
to_ℕ err_atomos_task_cannot_cancel_done_task = 83
to_ℕ err_id_first_sync_call_deadlock = 84
to_ℕ err_element_loaded = 85
to_ℕ err_element_message_handler_not_exists = 86
to_ℕ err_element_message_decoder_not_exists = 87
to_ℕ err_element_message_reply_type = 88
to_ℕ err_element_cannot_kill = 89
to_ℕ err_element_no_from_id = 90
to_ℕ err_element_not_implemented = 91
to_ℕ err_element_from_id_invalid = 92
to_ℕ err_element_to_id_invalid = 93
to_ℕ err_element_message_arg_type = 94
to_ℕ err_atom_message_handler_not_exists = 95
to_ℕ err_atom_message_decoder_not_exists = 96
to_ℕ err_atom_kill_element_no_implement = 97
to_ℕ err_atom_kill_element_not_implement_auto_data_persistence = 98
to_ℕ err_atom_from_id_invalid = 99
to_ℕ err_atom_to_id_invalid = 100
to_ℕ err_atom_data_not_found = 101
to_ℕ err_atom_not_exists = 102
to_ℕ err_atom_is_running = 103
to_ℕ err_atom_is_stopping = 104
to_ℕ err_atom_no_from_id = 105
to_ℕ err_atom_not_implemented = 106
to_ℕ err_atom_message_atom_type = 107
to_ℕ err_atom_message_arg_type = 108
to_ℕ err_atom_message_reply_type = 109
to_ℕ err_atom_spawning_an_existed_atom = 110
to_ℕ err_atom_instance_mismatch = 111
to_ℕ err_util_os_stat_error = 112
to_ℕ err_util_read_directory_failed = 113
to_ℕ err_util_not_supported_os = 114
to_ℕ err_util_path_should_be_directory = 115
to_ℕ err_util_directory_not_exist = 116
to_ℕ err_util_get_user_group_i_ds_failed = 117
to_ℕ err_util_users_groups_have_not_owned_directory = 118
to_ℕ err_util_file_mode_perm_not_match = 119
to_ℕ err_util_file_make_directory_failed = 120
to_ℕ err_util_file_change_owner_and_mode_failed = 121
to_ℕ err_util_file_confirm_owner_and_mode_failed = 122
to_ℕ err_util_create_file_failed = 123
to_ℕ err_util_file_ensure_directory_failed = 124
to_ℕ err_util_file_file_exist_failed = 125
to_ℕ err_util_file_get_directory_size_failed = 126
to_ℕ err_util_string_hash_sha256_failed = 127
to_ℕ err_cosmos_node_draining = 128
to_ℕ err_async_callback_cancelled_by_halt = 129

abbrev pub size : ℕ
size = 130
