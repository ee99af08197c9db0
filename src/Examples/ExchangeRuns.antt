-- ===== src/Examples/ExchangeRuns.antt =====
-- Runs of a whole exchange.
use go_oid4vp.Base.{
  inr, ◌≢◌, ◌++◌, length, ℕ, ◌==◌, true, ◌≡◌, ◌+◌, refl, sym, ap, arith, List, [], ◌∷◌, some, suc,
  false,
}
use go_oid4vp.Base.Bytes.{Bytes, codes}
use go_oid4vp.Platform.{Apv}
use go_oid4vp.Fault.{ok}
use go_oid4vp.Machine.{Machine}
use go_oid4vp.Store.{mark_consumed}
use go_oid4vp.Store.Spec.{no_sessions}
use go_oid4vp.Store.Interface.{mem_store}
use go_oid4vp.Store.Implements.{mem_store-Implements}
use go_oid4vp.Response.VpToken.{Presentation}
use go_oid4vp.Response.Process.{process_response}
use go_oid4vp.NewSession.{link_invocation}
use go_oid4vp.Exchange.{Wallet}
use go_oid4vp.Exchange.Completes.{Answers, posted, honest_answer_accepted}
use go_oid4vp.Session.{Session}
use go_oid4vp.Form.{encode_values}
use go_oid4vp.NewSession.Fresh.{chunk}
use go_oid4vp.Exchange.Apart.{OpensFor, answer_serves_one_session}
use go_oid4vp.Examples.Toy.{All-are_bytes, toy, toy_engine, toy_random, toy_parse_key, toy_decrypt}
use go_oid4vp.Form.Query.{Values, parse_query}
use go_oid4vp.Base.Table.{lookup}
use go_oid4vp.Examples.Stored.{codec_for}
use go_oid4vp.Examples.Fresh.{
  toy_spec, source, fresh, drained, created, token, other_source, other, other_token, created_other,
}

pub decrypts : (k : ℕ) (plain : Bytes) → toy_decrypt k (k ∷ plain) ≡ some (plain, Apv.absent)
decrypts k plain = let same : (k == k) ≡ true = ground arith in rw same

pub key_kept :
    (k : ℕ) (der : Bytes) → toy.marshal_pkcs8 k ≡ some der → toy_parse_key der ≡ some (some k)
key_kept k der h = let kept : der ≡ 48 ∷ k ∷ [] = ground (arith, h) in ap toy_parse_key kept

-- The toy wallet puts the key's byte before its text.
abbrev pub toy_wallet : Wallet toy
toy_wallet = record {
  header = Apv.absent;
  encrypt = λ k plain. k ∷ plain;
  decrypts = λ id k plain. decrypts k plain;
  key_kept = key_kept;
}

abbrev pub shown : List Presentation
shown =
    record {
      query_cred_id = codes "pid";
      format = codes "dc+sd-jwt";
      payload = codes "token";
      nonce = token;
      client_id = codes "x509_san_dns:v.example";
      response_uri = codes "https://v.example/resp";
      origin = [];
      jwk_thumbprint = [];
    }
    ∷ []

length-posted : length (posted toy_wallet 9 token) ≡ 34
unfolding go_oid4vp.Form.encode_values go_oid4vp.Form.query_escape go_oid4vp.Form.escape_byte
    go_oid4vp.Form.is_unreserved
length-posted = refl

-- The wallet sends the session's state back.
answers : Answers toy_wallet toy_engine (mark_consumed fresh) 9 token shown
unfolding go_oid4vp.Response.VpToken.Sort.sort go_oid4vp.Response.VpToken.Sort.sorted_insert
    go_oid4vp.Base.Table.lookup go_oid4vp.Response.VpToken.formats_from go_oid4vp.Base.Table.insert
    go_oid4vp.Base.Bytes.bytes_eq
answers = record {
  payload = record { vp_token = (codes "pid", codes "token") ∷ []; state = token; more = false };
  thumbprint = 9 ∷ [];
  reads = refl;
  nothing_after = refl;
  has_token = refl;
  own_state = refl;
  own_nonce = tt;
  has_thumbprint = refl;
  asked = ((codes "dc+sd-jwt", codes "token", [], refl, refl), tt);
  presents = (
    record {
      nonce = refl;
      client_id = refl;
      response_uri = refl;
      no_origin = refl;
      named = refl;
      asked = refl;
      not_blank = λ e. cc;
      is_entry = inr ((λ e. cc), refl, refl);
    },
    tt,
  );
  text = All-are_bytes (9 ∷ token) refl;
  not_blank = λ e. cc;
  fits = omega (arith, length-posted);
}

-- A machine that is at a session which the store has marked.
abbrev pub marked_at : Session toy → Machine toy
marked_at s = record { random = toy_random; clock = λ n. 200 + n; session = some (mark_consumed s) }

honest_answer_accepted_example :
    ((mem_store (codec_for fresh)).consume_once 200 token
        ((mem_store (codec_for fresh)).save (some fresh) (mem_store (codec_for fresh)).empty).1).0
      ≡ ok (mark_consumed fresh)
    × (code : Bytes) × (v : Machine toy) × (process_response toy_engine
          (posted toy_wallet 9 token)
          (marked_at fresh)
        ≡ (ok (shown, code), v))
unfolding no_sessions
honest_answer_accepted_example =
    honest_answer_accepted toy_wallet toy_engine toy_spec 9 source drained fresh
      (link_invocation toy_engine fresh) 9 token shown (marked_at fresh)
      (codec_for fresh).IsStorable (mem_store (codec_for fresh))
      (mem_store-Implements (codec_for fresh)) (mem_store (codec_for fresh)).empty no_sessions 200
      created refl refl refl (mem_store-Implements (codec_for fresh)).starts refl (omega arith)
      answers refl (omega arith) (omega arith)

-- A form with a ciphertext of two texts.
abbrev pub two_faced : Bytes
two_faced = codes "response=%00" ++ token ++ other_token

abbrev pub done : Session toy → Machine toy
done s = record {
  random = [];
  clock = λ n. 200 + suc n;
  session = some (record (mark_consumed s) { response_code = token });
}

pub first_accepts :
    process_response toy_engine two_faced (marked_at fresh) ≡ (ok (shown, token), done fresh)
unfolding process_response go_oid4vp.Response.Process.admit_response go_oid4vp.Machine.session
    go_oid4vp.Machine.now go_oid4vp.Response.read_response go_oid4vp.Form.Query.parse_query
    go_oid4vp.Form.Read.split go_oid4vp.Form.Query.parse_parts go_oid4vp.Form.Query.parse_part
    go_oid4vp.Base.Bytes.has_byte go_oid4vp.Form.Read.read_pair go_oid4vp.Form.query_unescape
    go_oid4vp.Base.Bytes.bytes_eq go_oid4vp.Base.Table.insert go_oid4vp.Base.Table.lookup
    go_oid4vp.Base64.char_of go_oid4vp.Base64.chars go_oid4vp.Base64.encode go_oid4vp.Base64.sextets
    go_oid4vp.Form.Query.append_value go_oid4vp.Form.Query.get go_oid4vp.Form.Read.beyond
    go_oid4vp.Form.Read.upto go_oid4vp.Form.unhex go_oid4vp.Machine.assign
    go_oid4vp.Machine.rand_token go_oid4vp.Response.Process.mint_code
    go_oid4vp.Response.VpToken.Sort.sort go_oid4vp.Response.VpToken.Sort.sorted_insert
    go_oid4vp.Response.VpToken.formats_from go_oid4vp.Response.VpToken.present_entries
    go_oid4vp.Response.VpToken.present_entry go_oid4vp.Response.VpToken.present_member
    go_oid4vp.Response.VpToken.present_members
    go_oid4vp.Response.VpToken.presentations_from_vp_token go_oid4vp.Response.check_agreement_info
    go_oid4vp.Response.check_payload go_oid4vp.Response.open_response
    go_oid4vp.Response.parse_response_payload go_oid4vp.Session.ephemeral_private_key
first_accepts = refl

second_accepts :
    process_response toy_engine two_faced (marked_at other) ≡ (ok (shown, token), done other)
unfolding process_response go_oid4vp.Response.Process.admit_response go_oid4vp.Machine.session
    go_oid4vp.Machine.now go_oid4vp.Response.read_response go_oid4vp.Form.Query.parse_query
    go_oid4vp.Form.Read.split go_oid4vp.Form.Query.parse_parts go_oid4vp.Form.Query.parse_part
    go_oid4vp.Base.Bytes.has_byte go_oid4vp.Form.Read.read_pair go_oid4vp.Form.query_unescape
    go_oid4vp.Base.Bytes.bytes_eq go_oid4vp.Base.Table.insert go_oid4vp.Base.Table.lookup
    go_oid4vp.Base64.char_of go_oid4vp.Base64.chars go_oid4vp.Base64.encode go_oid4vp.Base64.sextets
    go_oid4vp.Form.Query.append_value go_oid4vp.Form.Query.get go_oid4vp.Form.Read.beyond
    go_oid4vp.Form.Read.upto go_oid4vp.Form.unhex go_oid4vp.Machine.assign
    go_oid4vp.Machine.rand_token go_oid4vp.Response.Process.mint_code
    go_oid4vp.Response.VpToken.Sort.sort go_oid4vp.Response.VpToken.Sort.sorted_insert
    go_oid4vp.Response.VpToken.formats_from go_oid4vp.Response.VpToken.present_entries
    go_oid4vp.Response.VpToken.present_entry go_oid4vp.Response.VpToken.present_member
    go_oid4vp.Response.VpToken.present_members
    go_oid4vp.Response.VpToken.presentations_from_vp_token go_oid4vp.Response.check_agreement_info
    go_oid4vp.Response.check_payload go_oid4vp.Response.open_response
    go_oid4vp.Response.parse_response_payload go_oid4vp.Session.ephemeral_private_key
second_accepts = refl

answer_serves_one_session_example :
    (vals : Values) × (jwe : Bytes) × (plain : Bytes) × (plain' : Bytes) × (parse_query two_faced
      ≡ some vals)
    × (lookup (codes "response") vals ≡ some (jwe ∷ []))
    × OpensFor (mark_consumed fresh) jwe plain
    × OpensFor (mark_consumed other) jwe plain'
    × (plain ≢ plain')
answer_serves_one_session_example =
    answer_serves_one_session toy_engine toy_spec toy_spec 9 10 source drained other_source drained
      fresh other (link_invocation toy_engine fresh) (link_invocation toy_engine other) two_faced
      (marked_at fresh) (done fresh) (marked_at other) (done other) shown shown token token created
      created_other (All-are_bytes (chunk 2 source.random) refl)
      (All-are_bytes (chunk 2 other_source.random) refl) (λ same. cc) refl refl first_accepts
      second_accepts
