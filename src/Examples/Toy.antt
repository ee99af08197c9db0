-- ===== src/Examples/Toy.antt =====
-- A small concrete instance of what the package calls, with bytes and numbers for keys and
-- documents: a private key is its public key, and a ciphertext is the key's byte before the text.
use go_oid4vp.Base.{
  ltb, ◌<◌, ◌&&◌, All, arith, ℕ, ◌+◌, ◌≡◌, Bool, true, false, Option, none, some, List, [], ◌∷◌,
  ◌++◌, ◌==◌, if◌then◌else◌, take, drop,
}
use go_oid4vp.Base.Int.{ℤ, pos}
use go_oid4vp.Base.Bytes.{Bytes, codes, bytes_eq}
use go_oid4vp.Json.{text, num}
use go_oid4vp.Platform.{Platform, CredentialQuery, Url, Document, Apv}
use go_oid4vp.Session.{Session, Flow}
use go_oid4vp.Engine.{Engine, Config}
use go_oid4vp.Machine.{Machine}

-- A certificate: its DNS names and its key.
pub record Certificate : Type 0 where
  pub names : List Bytes
  pub key : ℕ

abbrev pub toy_parse_key : Bytes → Option (Option ℕ)
toy_parse_key [] = none
toy_parse_key (tag ∷ []) = none
toy_parse_key (tag ∷ k ∷ rest) = if tag == 48 then some (some k) else none

-- A ciphertext that begins with 0 opens to one of two texts of 22 bytes: the first with the key 9.
abbrev pub toy_decrypt : ℕ → Bytes → Option (Bytes × Apv)
toy_decrypt k [] = none
toy_decrypt k (c ∷ cs) =
    if c == k
    then some (cs, Apv.absent)
    else if c == 0
    then some (if k == 9 then take 22 cs else drop 22 cs, Apv.absent)
    else none

abbrev pub toy_host : Bytes → Bytes
toy_host [] = []
toy_host (c ∷ cs) = let rest = toy_host cs in if c == b'/' then [] else c ∷ rest

abbrev pub toy_path : Bytes → Bytes
toy_path [] = []
toy_path (c ∷ cs) = let rest = toy_path cs in if c == b'/' then c ∷ cs else rest

-- https://host/path
abbrev pub toy_url : Bytes → Option Url
toy_url raw =
    if bytes_eq (take 8 raw) (codes "https://")
    then some (record {
      scheme = codes "https";
      host = toy_host (drop 8 raw);
      hostname = toy_host (drop 8 raw);
      path = toy_path (drop 8 raw);
      raw_query = [];
      fragment = [];
      has_user = false;
    })
    else none

abbrev pub toy_document : Bytes → Option Document
toy_document [] = none
toy_document (c ∷ cs) = if c == b'{' then some (record { is_nil = false; more = false }) else none

abbrev pub toy : Platform
toy = record {
  Registration = ℕ;
  zero_registration = 0;
  registration_eq = λ a b. a == b;
  registration_claims = λ r. some (num r);
  new_registration_ref = λ name domain api purpose. some 5;
  Query = List CredentialQuery;
  zero_query = [];
  credentials = λ q. q;
  is_valid_query = λ q. true;
  query_json = λ q. text (codes "query");
  format_sdjwt = codes "dc+sd-jwt";
  format_mdoc = codes "mso_mdoc";
  PublicKey = ℕ;
  public_key_eq = λ a b. a == b;
  ecdh_point = λ k. some (4 ∷ k ∷ k ∷ []);
  curve_bits = λ k. 8;
  curve_name = λ k. codes "P-8";
  PrivateKey = ℕ;
  public_key = λ k. k;
  marshal_pkcs8 = λ k. some (48 ∷ k ∷ []);
  parse_pkcs8 = toy_parse_key;
  Certificate = Certificate;
  dns_names = λ c. c.names;
  certificate_key = λ c. some c.key;
  Policy = Unit {0};
  eccg = tt;
  allowed_curve = λ p c. true;
  allowed_jwe_alg = λ p a e. true;
  allowed_jws_alg = λ p a. true;
  allowed_cose_alg = λ p a. true;
  Hash = Unit {0};
  hash_for_alg = λ p a. if bytes_eq a (codes "sha-256") then some tt else none;
  is_available = λ h. true;
  digest = λ h b. take 3 b;
  KeyProvider = ℕ;
  provider_key = λ k id. some (some k);
  static_provider = λ id k. k;
  generate_ephemeral_key = λ curve n. some n;
  jwk_thumbprint_bytes = λ k. some (k ∷ []);
  Header = Apv;
  apv = λ h. h;
  decrypt_jwe = λ k id jwe. toy_decrypt k jwe;
  sign_jws = λ k id typ chain payload. some (codes "signed:" ++ payload);
  SessionTranscript = List Bytes;
  handover = λ a b c d. a ∷ b ∷ c ∷ d ∷ [];
  dcapi_handover = λ a b c. a ∷ b ∷ c ∷ [];
  parse_url = toy_url;
  json_marshal = λ j. some (codes "{}");
  decode_payload =
      λ b. some (record { vp_token = (codes "pid", codes "token") ∷ []; state = b; more = false });
  decode_strings = λ b. some (b ∷ []);
  decode_document = toy_document;
  decode_dcapi_body = λ b. some b;
}

abbrev pub toy_config : Config toy
toy_config = record {
  keys = some 7;
  signing_key_id = codes "sig";
  wrpac_chain = some (record { names = codes "v.example" ∷ []; key = 7 }) ∷ [];
  client_dns_name = codes "v.example";
  client_id_prefix = [];
  policy = none;
  request_uri_base = codes "https://v.example/ro/";
  request_uri_func = none;
  universal_link_base = codes "https://wallet.example/authorize";
  session_ttl = pos 0;
  max_response_body = pos 64;
  response_encryption = record {
    curve = codes "P-8";
    alg = codes "ECDH-ES";
    enc_values = codes "A128GCM" ∷ [];
  };
  vp_formats = record {
    sdjwt_alg_values = codes "ES256" ∷ [];
    kbjwt_alg_values = codes "ES256" ∷ [];
    mdoc_issuer_auth_alg_values = ℤ.negsuc 6 ∷ [];
    mdoc_device_auth_alg_values = ℤ.negsuc 6 ∷ [];
  };
  enable_transaction_data = true;
}

-- What `New` makes of it.
abbrev pub toy_engine : Engine toy
toy_engine = record {
  keys = 7;
  signing_key_id = codes "sig";
  wrpac_chain = some (record { names = codes "v.example" ∷ []; key = 7 }) ∷ [];
  client_dns_name = codes "v.example";
  policy = tt;
  client_id = codes "x509_san_dns:v.example";
  request_uri_base = codes "https://v.example/ro";
  request_uri_func = none;
  universal_link_base = codes "https://wallet.example/authorize";
  session_ttl = 300_000_000_000;
  max_response_body = 64;
  response_encryption = toy_config.response_encryption;
  vp_formats = toy_config.vp_formats;
  enable_transaction_data = true;
}

abbrev pub toy_session : Flow → Session toy
toy_session flow = record {
  id = codes "s1";
  flow = flow;
  client_id = codes "x509_san_dns:v.example";
  nonce = codes "n1";
  state = codes "st";
  response_uri = codes "https://v.example/resp";
  return_uri = codes "https://v.example/back?x=1";
  query = record { id = codes "pid"; format = codes "dc+sd-jwt" } ∷ [];
  registration = 5;
  wrprc = codes "wrprc";
  transaction_data = codes "{a" ∷ codes "{b" ∷ [];
  expected_origins = codes "https://v.example" ∷ [];
  ephemeral_key_pkcs8 = 48 ∷ b'K' ∷ [];
  created_at = 100;
  expires_at = 200;
  request_object_served = false;
  wallet_metadata = [];
  consumed = false;
  response_code = [];
  response_code_used = false;
}

abbrev pub toy_random : Bytes
toy_random = 1 ∷ 2 ∷ 3 ∷ 4 ∷ 5 ∷ 6 ∷ 7 ∷ 8 ∷ 9 ∷ 10 ∷ 11 ∷ 12 ∷ 13 ∷ 14 ∷ 15 ∷ 16 ∷ []

-- A machine whose clock reads 150, 151, …
abbrev pub toy_machine : Session toy → Machine toy
toy_machine s = record { random = toy_random; clock = λ n. 150 + n; session = some s }

-- Bytes, by a test.
abbrev pub are_bytes : Bytes → Bool
are_bytes [] = true
are_bytes (b ∷ bs) = ltb b 256 && are_bytes bs

pub All-are_bytes : (bs : Bytes) → are_bytes bs ≡ true → All (λ b. b < 256) bs
All-are_bytes [] h = tt
All-are_bytes (b ∷ bs) h = (ground arith, All-are_bytes bs (ground arith))
