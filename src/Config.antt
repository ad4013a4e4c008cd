-- ===== src/Config.antt =====
-- internal/config/config.go: the settings read from the environment. os.Getenv is a function from
-- names to texts, empty for a variable that is not set; strconv.Atoi and time.ParseDuration are
-- operations that may fail.
pub mod Fallback
use Prim.Native.String.{String}
use text.Mathlib.Text.{◌==◌ as str_eq}
use qemu_bmc.Base.{ℕ, Bool, true, false, Option, none, some, if◌then◌else◌, ◌||◌, ◌*◌}

-- Go's int; `negsuc n` stands for the negative of `suc n`.
pub data ℤ : Type 0 where
  pos : ℕ → ℤ
  negsuc : ℕ → ℤ

-- What the parsers of the Go library answer, `none` for an error. A duration counts nanoseconds.
pub record Parsers : Type 0 where
  pub atoi : String → Option ℤ
  pub parse_duration : String → Option ℤ

pub record Config : Type 0 where
  pub qmp_socket : String
  pub ipmi_user : String
  pub ipmi_pass : String
  pub redfish_port : String
  pub ipmi_port : String
  pub serial_addr : String
  pub serial_log_file : String
  pub tls_cert : String
  pub tls_key : String
  pub vm_boot_mode : String
  pub vm_ipmi_addr : String
  pub qemu_binary : String
  pub power_on_at_start : Bool
  pub vnc_addr : String
  pub debug : Bool
  pub dell_bmc_attributes : Bool
  pub system_uuid : String
  pub system_manufacturer : String
  pub system_model : String
  pub system_serial : String
  pub manager_model : String
  pub system_firmware_version : String
  pub manager_manufacturer : String
  pub manager_serial : String
  pub manager_part_number : String
  pub manager_uuid : String
  pub system_sku : String
  pub system_bios_version : String
  pub cpu_model : String
  pub cpu_count : ℤ
  pub memory_mib : ℤ
  pub graceful_shutdown_timeout : ℤ
  pub firmware_update_duration : ℤ
  pub firmware_download_timeout : ℤ
  pub firmware_download_insecure_tls : Bool

-- time.Second.
abbrev seconds : ℕ → ℤ
seconds n = pos (n * 1000000000)

module _ (getenv : String → String) where
  unfoldable pub get_env : String → String → String
  get_env key default_value =
      let value = getenv key in if str_eq value "" then default_value else value

  -- The parser is `atoi` for getIntEnv and `parse_duration` for getDurationEnv.
  unfoldable pub get_parsed_env : (String → Option ℤ) → String → ℤ → ℤ
  get_parsed_env parse key default_value =
      let value = getenv key in
      if str_eq value ""
      then default_value
      else elim (parse value) [ none ↦ default_value | some parsed ↦ parsed ]

  unfoldable pub get_bool_env : String → Bool → Bool
  get_bool_env key default_value =
      let value = getenv key in
      if str_eq value "true" || str_eq value "1" || str_eq value "yes"
      then true
      else if str_eq value "false" || str_eq value "0" || str_eq value "no"
      then false
      else default_value

  module _ (p : Parsers) where
    unfoldable pub get_int_env : String → ℤ → ℤ
    get_int_env = get_parsed_env p.atoi

    unfoldable pub get_duration_env : String → ℤ → ℤ
    get_duration_env = get_parsed_env p.parse_duration

    unfoldable pub load : Config
    load =
        let system_model = get_env "SYSTEM_MODEL" "Standard PC (Q35 + ICH9, 2009)" in
        let system_manufacturer = get_env "SYSTEM_MANUFACTURER" "QEMU" in
        let system_serial = get_env "SYSTEM_SERIAL" "" in
        record {
          qmp_socket = get_env "QMP_SOCK" "/var/run/qemu/qmp.sock";
          ipmi_user = get_env "IPMI_USER" "admin";
          ipmi_pass = get_env "IPMI_PASS" "password";
          redfish_port = get_env "REDFISH_PORT" "443";
          ipmi_port = get_env "IPMI_PORT" "623";
          serial_addr = get_env "SERIAL_ADDR" "localhost:9002";
          serial_log_file = get_env "CONSOLE_LOG" "/vm/console.log";
          tls_cert = get_env "TLS_CERT" "";
          tls_key = get_env "TLS_KEY" "";
          vm_boot_mode = get_env "VM_BOOT_MODE" "bios";
          vm_ipmi_addr = get_env "VM_IPMI_ADDR" "";
          qemu_binary = get_env "QEMU_BINARY" "qemu-system-x86_64";
          power_on_at_start = get_bool_env "POWER_ON_AT_START" false;
          vnc_addr = get_env "VNC_ADDR" "localhost:5900";
          debug = get_bool_env "DEBUG" false;
          dell_bmc_attributes = get_bool_env "ENABLE_DELL_BMC_ATTRIBUTES" false;
          system_uuid = get_env "SYSTEM_UUID" "";
          system_manufacturer = system_manufacturer;
          system_model = system_model;
          system_serial = system_serial;
          manager_model = get_env "SYSTEM_MANAGER_MODEL" system_model;
          system_firmware_version = get_env "SYSTEM_FIRMWARE_VERSION" "1.0.0";
          manager_manufacturer = get_env "SYSTEM_MANAGER_MANUFACTURER" system_manufacturer;
          manager_serial = get_env "SYSTEM_MANAGER_SERIAL" system_serial;
          manager_part_number = get_env "SYSTEM_MANAGER_PART_NUMBER" "";
          manager_uuid = get_env "SYSTEM_MANAGER_UUID" "";
          system_sku = get_env "SYSTEM_SKU" "";
          system_bios_version = get_env "SYSTEM_BIOS_VERSION" "1.0.0";
          cpu_model = get_env "SYSTEM_CPU_MODEL" "QEMU Virtual CPU";
          cpu_count = get_int_env "VM_CPUS" (pos 2);
          memory_mib = get_int_env "VM_MEMORY" (pos 2048);
          graceful_shutdown_timeout = get_duration_env "GRACEFUL_SHUTDOWN_TIMEOUT" (seconds 120);
          firmware_update_duration = get_duration_env "FIRMWARE_UPDATE_DURATION" (seconds 20);
          firmware_download_timeout = get_duration_env "FIRMWARE_DOWNLOAD_TIMEOUT" (seconds 30);
          firmware_download_insecure_tls = get_bool_env "FIRMWARE_DOWNLOAD_INSECURE_TLS" true;
        }
