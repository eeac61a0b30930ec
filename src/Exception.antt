-- ===== src/Exception.antt =====
-- source/include/exception.hh, datamodel_ex.hh, filemap_ex.hh, jsonrpc_ex.hh, object_ex.hh,
-- rpc_ex.hh, http_client_ex.hh: the exceptions with their text and error code. std::out_of_range
-- and std::runtime_error (with InvalidUse, which derives from it) have no error code.
use libinv.Prelude.{◌++◌, Bytes, codes, ℤ, negsuc}

-- The classes under inventory::exceptions::ExceptionBase.
pub data Class : Type 0 where
  invalid_repr no_such_object object_exists no_such_type no_such_file parse_error : Class
  invalid_request invalid_response no_such_method invalid_parameters : Class
  http_client_exception : Class

pub data Exception : Type 0 where
  base : Class → Bytes → Exception
  out_of_range : Bytes → Exception
  runtime_error : Bytes → Exception
  -- A failed assertion of rapidjson, which ends the program: nothing that catches takes it.
  aborted : Exception

-- ec(), a JSONRPC::ErrorCode as its number
unfoldable pub ec : Class → ℤ
ec invalid_repr = negsuc 32602
ec no_such_object = negsuc 31999
ec object_exists = negsuc 32001
ec no_such_type = negsuc 32599
ec no_such_file = negsuc 32000
ec parse_error = negsuc 32699
ec invalid_request = negsuc 32599
ec invalid_response = negsuc 32602
ec no_such_method = negsuc 32600
ec invalid_parameters = negsuc 32601
ec http_client_exception = negsuc 32602

-- The constructors that compose the text.
unfoldable pub no_such_object_of : Bytes → Bytes → Exception
no_such_object_of type id =
    base no_such_object
      (codes "No object of type " ++ (type ++ (codes " and id " ++ (id ++ codes "."))))

unfoldable pub object_exists_of : Bytes → Bytes → Exception
object_exists_of type id =
    base object_exists (codes "Object already exists: " ++ (type ++ (codes ":" ++ id)))

unfoldable pub no_such_type_of : Bytes → Exception
no_such_type_of type = base no_such_type (codes "No such type: " ++ type)

unfoldable pub no_such_file_of : Bytes → Exception
no_such_file_of filename = base no_such_file (codes "No such file: " ++ filename)

unfoldable pub parse_error_of : Bytes → Exception
parse_error_of doc = base parse_error (codes "JSONRPC: parse error while parsing: " ++ doc)

unfoldable pub invalid_request_of : Bytes → Exception
invalid_request_of description =
    base invalid_request (codes "Invalid JSONRPC request: " ++ description)

unfoldable pub invalid_response_of : Bytes → Exception
invalid_response_of description =
    base invalid_response (codes "Invalid JSONRPC response: " ++ description)

unfoldable pub no_such_method_of : Bytes → Exception
no_such_method_of method_name = base no_such_method (codes "No such RPC method: " ++ method_name)

unfoldable pub invalid_parameters_of : Bytes → Exception
invalid_parameters_of errdesc = base invalid_parameters (codes "Invalid parameters: " ++ errdesc)
