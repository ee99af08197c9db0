-- ===== src/Fault/Response.antt =====
-- errorresponse.go: the OID4VP Error Response that a wallet gets for an engine error. The body is
-- the map that `json.Marshal` is given.
use go_oid4vp.Base.{ℕ, Option, none, some, List, [], ◌∷◌, if◌then◌else◌}
use go_oid4vp.Base.Bytes.{Bytes, codes, bytes_eq}
use go_oid4vp.Fault.{
  Sentinel, session_invalid, session_not_found, session_expired, session_consumed,
  session_not_consumed, config, san_mismatch, unsupported_client_id_prefix, spec, no_registration,
  flow_mismatch, request_uri_consumed, wallet_metadata_invalid, body_too_large, malformed_response,
  decrypt, state_mismatch, apv_mismatch, unknown_credential_id, no_response_code,
  response_code_mismatch, response_code_consumed, origin_not_expected, transaction_data_disabled,
  transaction_data_invalid, transaction_data_missing, transaction_data_unexpected,
  transaction_data_mismatch, transcript_params, WalletError, Error, is, as_wallet_error,
}

-- The error codes of the wallet boundary.
pub data Code : Type 0 where
  invalid_request invalid_client access_denied vp_formats_not_supported : Code
  invalid_request_uri invalid_request_object server_error : Code

unfoldable pub code_text : Code → Bytes
code_text invalid_request = codes "invalid_request"
code_text invalid_client = codes "invalid_client"
code_text access_denied = codes "access_denied"
code_text vp_formats_not_supported = codes "vp_formats_not_supported"
code_text invalid_request_uri = codes "invalid_request_uri"
code_text invalid_request_object = codes "invalid_request_object"
code_text server_error = codes "server_error"

-- `sentinelMapping`; the fields other than the sentinel are what `serialize` gets.
pub record Reply : Type 0 where
  pub status : ℕ
  pub code : Code
  pub description : Bytes

pub record SentinelMapping : Type 0 where
  pub target : Sentinel
  pub reply : Reply

abbrev row : Sentinel → ℕ → Code → Bytes → SentinelMapping
row s n c d = record { target = s; reply = record { status = n; code = c; description = d } }

abbrev pub internal_error : Reply
internal_error = record { status = 500; code = server_error; description = codes "internal error" }

unfoldable pub error_table : List SentinelMapping
error_table =
    row session_not_found 404 invalid_request (codes "unknown or expired session")
    ∷ row session_expired 404 invalid_request (codes "session expired")
    ∷ row session_consumed 400 invalid_request (codes "response already received")
    ∷ row request_uri_consumed 400 invalid_request_uri (codes "request already retrieved")
    ∷ row wallet_metadata_invalid 400 invalid_request (codes "wallet metadata rejected")
    ∷ row body_too_large 400 invalid_request (codes "response too large")
    ∷ row malformed_response 400 invalid_request (codes "malformed response")
    ∷ row decrypt 400 invalid_request (codes "response could not be decrypted")
    ∷ row state_mismatch 400 invalid_request (codes "state binding failed")
    ∷ row apv_mismatch 400 invalid_request (codes "response nonce binding failed")
    ∷ row unknown_credential_id 400 invalid_request (codes "unexpected credential in response")
    ∷ row origin_not_expected 400 invalid_client (codes "origin not allowed")
    ∷ row response_code_mismatch 400 invalid_request (codes "response code binding failed")
    ∷ row response_code_consumed 400 invalid_request (codes "response code already used")
    ∷ row no_response_code 400 invalid_request (codes "no response code for session")
    ∷ row transaction_data_mismatch 400 invalid_request (codes "transaction data binding failed")
    ∷ row transaction_data_missing 400 invalid_request (codes "transaction data not confirmed")
    ∷ row transaction_data_unexpected 400 invalid_request (codes "unexpected transaction data")
    ∷ row flow_mismatch 400 invalid_request (codes "wrong endpoint for this session")
    ∷ row no_registration 500 server_error (codes "internal error")
    ∷ row config 500 server_error (codes "internal error")
    ∷ row spec 500 server_error (codes "internal error")
    ∷ row session_invalid 500 server_error (codes "internal error")
    ∷ row session_not_consumed 500 server_error (codes "internal error")
    ∷ row transcript_params 500 server_error (codes "internal error")
    ∷ row transaction_data_disabled 500 server_error (codes "internal error")
    ∷ row transaction_data_invalid 500 server_error (codes "internal error")
    ∷ row san_mismatch 500 server_error (codes "internal error")
    ∷ row unsupported_client_id_prefix 500 server_error (codes "internal error")
    ∷ []

-- The codes that the switch of `normalizeWalletCode` lets through.
abbrev pub echoed_codes : List Code
echoed_codes =
    access_denied ∷ invalid_request ∷ invalid_client ∷ vp_formats_not_supported
    ∷ invalid_request_uri ∷ invalid_request_object ∷ []

-- The switch: the first code whose text it is, or the default.
unfoldable pub normalize_among : List Code → Bytes → Code
normalize_among [] text = invalid_request
normalize_among (c ∷ cs) text = if bytes_eq text (code_text c) then c else normalize_among cs text

unfoldable pub normalize_wallet_code : Bytes → Code
unfolding normalize_among
normalize_wallet_code text = normalize_among echoed_codes text

-- The loop over the table.
unfoldable pub find_row : Error → List SentinelMapping → Reply
find_row e [] = internal_error
find_row e (m ∷ ms) = if is e m.target then m.reply else find_row e ms

-- `errors.As` first, then the table.
unfoldable pub reply_to : Error → Option WalletError → Reply
reply_to e (some we) = record {
  status = 400;
  code = normalize_wallet_code we.code;
  description = codes "wallet reported an error";
}
reply_to e none = find_row e error_table

-- `err == nil` is `none`.
unfoldable pub error_response : Option Error → Reply
unfolding reply_to
error_response none = internal_error
error_response (some e) = reply_to e (as_wallet_error e)
