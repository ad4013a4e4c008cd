-- ===== src/Redfish/Http.antt =====
-- internal/redfish: what a handler answers with. A JSON document is the record of its variable
-- fields; the texts of error messages are left out.
use qemu_bmc.Base.{ℕ, Bytes}

-- The Redfish message ids that writeError is called with.
pub data Code : Type 0 where
  malformed_json property_value_error property_value_not_in_list property_missing : Code
  property_value_format_error resource_not_found resource_already_exists : Code
  create_limit_reached internal_error precondition_failed : Code
  action_parameter_missing action_parameter_not_supported action_parameter_value_type : Code
  action_parameter_value_not_in_list : Code

-- A URI under /redfish/v1: the collection, and the last segment.
pub data Link : Type 0 where
  account_link subscription_link task_link : Bytes → Link

-- Status and document, `Location` included after 201 and 202, the answer of writeError, and 204.
pub data Reply (A : Type 0) : Type 0 where
  document : ℕ → A → Reply A
  created_at : Link → A → Reply A
  accepted_at : Link → A → Reply A
  failure : ℕ → Code → Reply A
  no_content : Reply A
