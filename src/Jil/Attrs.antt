-- ===== src/Jil/Attrs.antt =====
-- The attribute names of JIL (autosys/parser/jil_attrs.py). A text names the members of a set, with
-- blanks between them.
use autosys_clone.Prelude.{
  ℕ, Bool, false, ◌||◌, List, [], ◌∷◌, ◌++◌, Text, codes, lower, eq_text, ◌==◌, if◌then◌else◌,
}

abbrev pub add_letter : ℕ → List Text → List Text
add_letter c [] = (c ∷ []) ∷ []
add_letter c (w ∷ ws) = (c ∷ w) ∷ ws

-- The words between the blanks of a text.
abbrev pub words_of : Text → List Text
words_of [] = [] ∷ []
words_of (c ∷ cs) = let rest = words_of cs in if c == b' ' then [] ∷ rest else add_letter c rest

unfoldable pub job_attrs : List Text
job_attrs =
    words_of
      (codes "after_time agent_name alarm alarm_if_fail alarm_if_terminated alarm_verif all_events")
    ++ words_of
        (codes "all_status amount application arc_obj_name arc_obj_variant arc_parms auth_string")
    ++ words_of (
        codes "auto_delete auto_hold avg_runtime bdc_err_rate bdc_ext_log bdc_proc_rate bdc_system")
    ++ words_of (codes "bean_name blob_file blob_input blob_type box_failure box_name box_success")
    ++ words_of
        (codes "broadcast_address character_code chk_files class_name command compatibility")
    ++ words_of
        (codes "condition condition_code connect_string connection_factory connection_retry")
    ++ words_of
        (codes "connection_timeout continuous copy_jcl correlation_id cpu_usage create_method")
    ++ words_of (
        codes "create_name create_parameter currun date_conditions days_of_week dbtype description")
    ++ words_of (
        codes
          "destination_file destination_name destination_user disk_drive disk_format disk_space")
    ++ words_of (codes "elevated encoding encryption_type endpoint_URL envvars exclude_calendar")
    ++ words_of (codes "external_os_user factor fail_codes failure filter filter_type finder_name")
    ++ words_of (
        codes "finder_parameter force form_parameter ftp_compression ftp_local_name ftp_local_user")
    ++ words_of (codes "ftp_remote_name ftp_server_name ftp_server_port ftp_transfer_direction")
    ++ words_of (codes "ftp_transfer_type ftp_use_SSL ftp_user_type group header_filter headers")
    ++ words_of (codes "heartbeat_attempts heartbeat_freq heartbeat_interval i5_action i5_cc_exit")
    ++ words_of
        (codes "i5_curr_lib i5_job_desc i5_job_name i5_job_queue i5_lda i5_lib i5_library_list")
    ++ words_of (codes "i5_name i5_others i5_params i5_process_priority informatica_folder_name")
    ++ words_of
        (codes "informatica_param_file informatica_pass_on_success informatica_repository_name")
    ++ words_of (codes "informatica_security_domain informatica_target_name informatica_task_name")
    ++ words_of (codes "informatica_user informatica_workflow_inst_name informatica_workflow_name")
    ++ words_of
        (codes "initial_context_factory input_cookies inside_range interactive invocation_type")
    ++ words_of (codes "ip_host ip_port ip_status j2ee_authentication_order j2ee_conn_domain")
    ++ words_of
        (codes "j2ee_conn_origin j2ee_conn_user j2ee_no_global_proxy_defaults j2ee_parameter")
    ++ words_of (codes "j2ee_proxy_domain j2ee_proxy_host j2ee_proxy_origin_host j2ee_proxy_port")
    ++ words_of
        (codes "j2ee_proxy_user j2ee_user jcl_library jcl_member jmx_parameter jmx_user job_class")
    ++ words_of
        (codes "job_criteria job_filter job_load job_name job_terminator job_type key_to_agent")
    ++ words_of
        (codes "lower_boundary mac_address machine machine_method max_exit_success max_load")
    ++ words_of
        (codes "max_run_alarm mbean_attr mbean_name mbean_operation media_type message_class")
    ++ words_of
        (codes "method_name mf_jcl_name mf_jcl_type mf_server mf_server_address_type mf_user")
    ++ words_of (codes "mf_version min_run_alarm mode modify_parameter monitor_cond monitor_mode")
    ++ words_of
        (codes "monitor_type must_complete_times must_start_times n_retrys no_change node_name")
    ++ words_of (codes "notification_alarm_types notification_emailaddress")
    ++ words_of (codes "notification_emailaddress_on_alarm notification_emailaddress_on_failure")
    ++ words_of
        (codes "notification_emailaddress_on_success notification_emailaddress_on_terminated")
    ++ words_of (
        codes
          "notification_msg one_way operation_type opsys oracle_appl_name oracle_appl_name_type")
    ++ words_of (codes "oracle_args oracle_custom_property oracle_desc oracle_mon_children")
    ++ words_of (codes "oracle_mon_children_delay oracle_notify_display_users oracle_notify_users")
    ++ words_of (codes "oracle_oprunit oracle_output_format oracle_print_copies oracle_print_style")
    ++ words_of (codes "oracle_printer oracle_program oracle_program_name_type oracle_programdata")
    ++ words_of (codes "oracle_quote_in_default oracle_req_set oracle_req_set_type oracle_resp")
    ++ words_of (codes "oracle_save_output oracle_template_language oracle_template_name")
    ++ words_of (codes "oracle_template_territory oracle_use_arg_def oracle_use_set_defaults_first")
    ++ words_of
        (codes "oracle_user os_user output_var owner pa_monitor_progress pa_name pa_parameter")
    ++ words_of (
        codes
          "pa_path pa_trace payload_uri permission persist_output_cookies persist_output_header")
    ++ words_of
        (codes "persist_output_payload ping_ports ping_timeout poll_interval port port_name")
    ++ words_of (
        codes "preemptive_authentication priority process_name process_status profile provider_url")
    ++ words_of
        (codes "ps_args ps_dest_format ps_dest_type ps_detail_folder ps_dlist_roles ps_dlist_users")
    ++ words_of (codes "ps_email_address ps_email_address_expanded ps_email_log ps_email_subject")
    ++ words_of
        (codes "ps_email_text ps_email_web_report ps_operator_id ps_output_dest ps_process_name")
    ++ words_of
        (codes "ps_process_type ps_restarts ps_run_cntrl_args ps_run_cntrl_id ps_run_control_table")
    ++ words_of
        (codes "ps_server_name ps_skip_parm_updates ps_time_zone remote_command remote_name")
    ++ words_of
        (codes "remote_target remove_references reply_to request_id res_type resources restart")
    ++ words_of (codes "result_type results_file results_file_overwrite retry_on_failure_count")
    ++ words_of
        (codes "retry_on_failure_delay retry_on_failure_details return_class_name return_namespace")
    ++ words_of (codes "return_xml_name run_calendar run_external run_window running sap_abap_name")
    ++ words_of
        (codes "sap_chain_id sap_client sap_ext_table sap_fail_msg sap_info_pack sap_job_class")
    ++ words_of
        (codes "sap_job_count sap_job_name sap_lang sap_mon_child sap_office sap_print_parms")
    ++ words_of (codes "sap_proc_type sap_process_client sap_process_status sap_recipients")
    ++ words_of
        (codes "sap_release_option sap_rfc_dest sap_step_num sap_step_parms sap_success_msg")
    ++ words_of
        (codes "sap_target_jobname sap_target_sys scp_create_targetdir scp_delete_sourcedir")
    ++ words_of
        (codes "scp_delete_sourcefile scp_local_name scp_local_user scp_protocol scp_remote_dir")
    ++ words_of (
        codes "scp_remote_name scp_rename_sourcefile scp_server_name scp_server_port scp_target_os")
    ++ words_of
        (codes "scp_transfer_direction scp_transfer_mode search_bw send_notification service_desk")
    ++ words_of
        (codes "service_name shell snmp_auth_protocol snmp_comm_string snmp_context_engine_id")
    ++ words_of
        (codes "snmp_context_name snmp_host snmp_mib snmp_oid snmp_privacy snmp_privacy_user")
    ++ words_of (
        codes
          "snmp_subtree snmp_table_view snmp_value snmp_version soap_action soap_version sp_arg")
    ++ words_of (
        codes "sp_name spool_file sql_command sqlagent_domain_name sqlagent_jobid sqlagent_jobname")
    ++ words_of
        (codes "sqlagent_server_name sqlagent_step_name sqlagent_target_db sqlagent_user_name")
    ++ words_of (codes "start_mins start_times starting std_err_file std_in_file std_out_file")
    ++ words_of
        (codes "submit_modifier success success_codes success_criteria success_criteria_json")
    ++ words_of (
        codes
          "success_criteria_regex success_criteria_value success_criteria_xpath success_pattern")
    ++ words_of
        (codes "suspended svcdesk_attr svcdesk_desc svcdesk_imp svcdesk_pri svcdesk_sev tablename")
    ++ words_of
        (codes "target_namespace term_run_time terminated text_file_filter text_file_filter_exists")
    ++ words_of
        (codes "text_file_mode text_file_name time_format time_position timezone trigger_cond")
    ++ words_of
        (codes "trigger_type type ulimit upper_boundary URL use_topic user_role wake_password")
    ++ words_of
        (codes "watch_file watch_file_change_type watch_file_change_value watch_file_groupname")
    ++ words_of (codes "watch_file_min_size watch_file_owner watch_file_recursive watch_file_type")
    ++ words_of (codes "watch_file_win_user watch_interval watch_no_change web_parameter web_user")
    ++ words_of
        (codes "win_event_category win_event_computer win_event_datetime win_event_description")
    ++ words_of (codes "win_event_id win_event_op win_event_source win_event_type win_log_name")
    ++ words_of (codes "win_service_name win_service_status ws_authentication_order ws_conn_domain")
    ++ words_of
        (codes "ws_conn_origin ws_conn_user ws_global_proxy_defaults ws_parameter ws_proxy_domain")
    ++ words_of (
        codes
          "ws_proxy_host ws_proxy_origin ws_proxy_port ws_proxy_user ws_security wsdl_operation")
    ++ words_of
        (codes "WSDL_URL xcrypt_type xkey_to_manager xmachine xmanager xport xtype zos_dataset")
    ++ words_of
        (codes "zos_dsn_renamed zos_dsn_updated zos_explicit_dsn zos_ftp_direction zos_ftp_host")
    ++ words_of (codes "zos_ftp_userid zos_jobname zos_trigger_by zos_trigger_on zos_trigger_type")

unfoldable pub other_attrs : List Text
other_attrs =
    words_of
      (codes "active alarm alarm_type alarm_verif alert_columns alert_policy all_events all_status")
    ++ words_of (codes "amount blob_file blob_input blob_mode blob_name blob_type calendar_name")
    ++ words_of
        (codes "character_code connectionprofile_type currun dates description encryption_type")
    ++ words_of
        (codes "end_date factor failure filter force global_name heartbeat_interval job_columns")
    ++ words_of (codes "job_filter job_name job_status job_type_name key_to_agent machine_method")
    ++ words_of
        (codes "machine_name max_load mode monbro_name monbro_type new_name node_name opsys port")
    ++ words_of
        (codes "profile_name remove_references render_collections render_flow render_jobs res_type")
    ++ words_of
        (codes "resource_name restart running server severity sound start_date starting status")
    ++ words_of (codes "success suspended system_log terminated text type url_link url_name view")
    ++ words_of (
        codes
          "watch_no_change xcomm_alias xcrypt_type xinst_name xkey_to_manager xmachine xmanager")
    ++ words_of (codes "xport xtype")

-- `a in KNOWN_ATTRS_LOWER`.
unfoldable pub mem_lower : Text → List Text → Bool
mem_lower key [] = false
mem_lower key (a ∷ names) = eq_text key (lower a) || mem_lower key names

-- `CANONICAL_CASE.get(low, low)`: no two attributes differ only in their case.
unfoldable pub canonical_case : Text → List Text → Text
canonical_case low [] = low
canonical_case low (a ∷ names) =
    let rest = canonical_case low names in if eq_text low (lower a) then a else rest

unfoldable pub canonical_key : Text → Text
unfolding canonical_case job_attrs other_attrs
canonical_key key = canonical_case (lower key) (job_attrs ++ other_attrs)

unfoldable pub is_known_attr : Text → Bool
unfolding mem_lower job_attrs other_attrs
is_known_attr key = mem_lower (lower key) (job_attrs ++ other_attrs)
